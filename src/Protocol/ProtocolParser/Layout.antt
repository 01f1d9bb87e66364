-- ===== src/Protocol/ProtocolParser/Layout.antt =====
-- Messages as rows of parts, and what stands at an offset.
use hft_fix_engine.Base.{
  ℕ, suc, ◌+◌, ◌≤◌, ◌≡◌, refl, sym, ap, ◌∙◌, false, List, [], ◌∷◌, ◌++◌, map, some, take, drop,
  get_or, length, sum, take-append_le, ◌==◌, Bytes, arith, ge→ltb,
}
use hft_fix_engine.Protocol.ProtocolParser.{ouch, sbe, field, ouch_order, sbe_order, parse_in_place}

-- The parts of a message, one behind the other, in front of the memory behind it.
abbrev pub concat_onto : List Bytes → Bytes → Bytes
concat_onto [] rest = rest
concat_onto (part ∷ parts) rest = part ++ concat_onto parts rest

drop-append : (n : ℕ) (xs ys : Bytes) → drop (length xs + n) (xs ++ ys) ≡ drop n ys
drop-append n [] ys = ap (λ m. drop m ys) (let e : 0 + n ≡ n = omega arith in e)
drop-append n (x ∷ xs) ys =
    ap (λ m. drop m (x ∷ (xs ++ ys)))
      (let e : suc (length xs) + n ≡ suc (length xs + n) = omega arith in e)
    ∙ drop-append n xs ys

get_or-behind : (n : ℕ) (xs ys : Bytes) → get_or (xs ++ ys) (length xs + n) 0 ≡ get_or ys n 0
get_or-behind n [] ys = ap (λ m. get_or ys m 0) (let e : 0 + n ≡ n = omega arith in e)
get_or-behind n (x ∷ xs) ys =
    ap (λ m. get_or (x ∷ (xs ++ ys)) m 0)
      (let e : suc (length xs) + n ≡ suc (length xs + n) = omega arith in e)
    ∙ get_or-behind n xs ys

abbrev pub total : List Bytes → ℕ
total parts = sum (map length parts)

module _ (part rest : Bytes) where
  drop-parts :
      (before : List Bytes) → drop (total before) (concat_onto before (part ++ rest)) ≡ part ++ rest
  drop-parts [] = refl
  drop-parts (p ∷ ps) = drop-append (total ps) p (concat_onto ps (part ++ rest)) ∙ drop-parts ps

  -- The part behind `before` is the field at its offset.
  pub field-parts :
      (before : List Bytes) (offset size : ℕ)
      → total before ≡ offset
      → length part ≡ size
      → field offset size (concat_onto before (part ++ rest)) ≡ part
  field-parts before offset size e f =
      ap (λ o. field o size (concat_onto before (part ++ rest))) (sym e)
      ∙ ap (take size) (drop-parts before)
      ∙ take-append_le size part rest f

pub byte-parts :
    (before : List Bytes) (c : ℕ) (rest : Bytes) (offset : ℕ)
    → total before ≡ offset
    → get_or (concat_onto before (c ∷ rest)) offset 0 ≡ c
byte-parts [] c rest offset e = ap (λ o. get_or (c ∷ rest) o 0) (sym e)
byte-parts (p ∷ ps) c rest offset e =
    ap (λ o. get_or (p ++ concat_onto ps (c ∷ rest)) o 0) (sym e)
    ∙ get_or-behind (total ps) p (concat_onto ps (c ∷ rest))
    ∙ byte-parts ps c rest (total ps) refl

not_zero : (len : ℕ) → 46 ≤ len → (len == 0) ≡ false
not_zero len h = ground arith

pub parse_ouch :
    (stale payload : Bytes) (len : ℕ)
    → 46 ≤ len
    → parse_in_place stale ouch (some payload) len ≡ ouch_order payload
unfolding parse_in_place
parse_ouch stale payload len h = rw (not_zero len h, ge→ltb len 46 h, parse_in_place) refl

pub parse_sbe :
    (stale payload : Bytes) (len : ℕ)
    → 46 ≤ len
    → parse_in_place stale sbe (some payload) len ≡ sbe_order stale payload
unfolding parse_in_place
parse_sbe stale payload len h = rw (not_zero len h, ge→ltb len 46 h, parse_in_place) refl
