-- ===== src/Protocol/FixParser/Fields.antt =====
-- The loop over a message: it ends, and it reads the fields of a rendered message one after the other.
use hft_fix_engine.Base.{
  ℕ, zero, suc, ◌+◌, ◌^◌, ◌<◌, ◌≤◌, ◌≡◌, refl, ap, ◌∙◌, pos, Bool, true, false, List, [], ◌∷◌, ◌++◌,
  Option, none, some, All, length, length-append, Bytes, arith, loop, loop-none, loop-some,
  loop_exit, IsDigit, decimal, All-decimal, from_chars_int-print_int,
}
use hft_fix_engine.Protocol.ParsedOrder.{ParsedOrder, default_order}
use hft_fix_engine.Protocol.FixParser.{
  until, is_equals, is_delimiter, set_field, Scan, scan_tag, skip_delimiter, scan_round,
  scan_message,
}

pub until-append :
    (stop : ℕ → Bool) (xs : Bytes) (s : ℕ) (rest : Bytes)
    → All (λ c. stop c ≡ false) xs
    → stop s ≡ true
    → until stop (xs ++ (s ∷ rest)) ≡ (xs, s ∷ rest)
unfolding until
until-append stop [] s rest h e = rw (e, until) refl
until-append stop (x ∷ xs) s rest h e =
    rw (h.0, until) (rw (until-append stop xs s rest h.1 e) refl)

-- Nothing is lost, and what follows is no longer than the text.
length-until : (stop : ℕ → Bool) (xs : Bytes) → length (until stop xs).1 ≤ length xs
unfolding until
length-until stop [] = omega arith
length-until stop (x ∷ xs) = ground (arith, length-until stop xs)

length-skip_delimiter : (xs : Bytes) → length (skip_delimiter xs) ≤ length xs
length-skip_delimiter [] = omega arith
length-skip_delimiter (x ∷ xs) = omega arith

abbrev left_of : Option Scan → ℕ
left_of none = 0
left_of (some s) = length s.ptr

scan_tag_fewer :
    (p : Bytes × Bytes) (order : ParsedOrder) (t : Scan)
    → scan_tag p order ≡ some t
    → length t.ptr < length p.1
scan_tag_fewer (tag, []) order t e = cc
scan_tag_fewer (tag, equals ∷ rest) order t e =
    let left : length (skip_delimiter (until is_delimiter rest).1) ≡ length t.ptr = ap left_of e in
    omega (
      arith,
      left,
      length-skip_delimiter (until is_delimiter rest).1,
      length-until is_delimiter rest,
    )

round_fewer : (s t : Scan) → scan_round s ≡ some t → length t.ptr < length s.ptr
unfolding scan_round
round_fewer s t e =
    omega (arith, scan_tag_fewer (until is_equals s.ptr) s.order t e, length-until is_equals s.ptr)

scan_round-end : (order : ParsedOrder) → scan_round (record { ptr = []; order = order }) ≡ none
unfolding scan_round
scan_round-end order = refl

-- The message that a row of fields makes: each tag in decimal, its value, and the delimiter.
abbrev pub render : List (ℕ × Bytes) → Bytes
render [] = []
render ((tag, value) ∷ fs) = decimal tag ++ (b'=' ∷ (value ++ (1 ∷ render fs)))

abbrev pub apply_fields : ParsedOrder → List (ℕ × Bytes) → ParsedOrder
apply_fields order [] = order
apply_fields order ((tag, value) ∷ fs) = apply_fields (set_field (pos tag) value order) fs

-- A tag that is an `int`, and a value without delimiters.
abbrev pub IsField : ℕ × Bytes → Type 0
IsField (tag, value) = (tag < 2 ^ 31) × All (λ c. is_delimiter c ≡ false) value

digits_no_equals : (ds : Bytes) → All IsDigit ds → All (λ c. is_equals c ≡ false) ds
digits_no_equals [] h = tt
digits_no_equals (d ∷ ds) h = (ground arith, digits_no_equals ds h.1)

scan_round-field :
    (tag : ℕ) (value rest : Bytes) (order : ParsedOrder)
    → IsField (tag, value)
    → scan_round (record { ptr = decimal tag ++ (b'=' ∷ (value ++ (1 ∷ rest))); order = order })
      ≡ some (record { ptr = rest; order = set_field (pos tag) value order })
unfolding scan_round
scan_round-field tag value rest order f =
    rw
      (until-append is_equals (decimal tag) b'=' (value ++ (1 ∷ rest))
        (digits_no_equals (decimal tag) (All-decimal tag)) refl)
      (rw (until-append is_delimiter value 1 rest f.1 refl)
        (rw (from_chars_int-print_int (pos 0) (pos tag) f.0) refl))

loop-render :
    (fs : List (ℕ × Bytes)) (order : ParsedOrder) (fuel : ℕ)
    → All IsField fs
    → length fs < fuel
    → loop fuel scan_round (record { ptr = render fs; order = order })
      ≡ record { ptr = []; order = apply_fields order fs }
loop-render fs order zero h lt = absurd (omega arith)
loop-render [] order (suc fuel) h lt = loop-none (suc fuel) scan_round _ (scan_round-end order)
loop-render ((tag, value) ∷ fs) order (suc fuel) h lt =
    loop-some fuel scan_round _ _ (scan_round-field tag value (render fs) order h.0)
    ∙ loop-render fs (set_field (pos tag) value order) fuel h.1 (omega arith)

pub length-render : (fs : List (ℕ × Bytes)) → length fs ≤ length (render fs)
length-render [] = omega arith
length-render ((tag, value) ∷ fs) = omega (
  arith,
  length-render fs,
  length-append (decimal tag) (b'=' ∷ (value ++ (1 ∷ render fs))),
  length-append value (1 ∷ render fs),
)

-- A message that renders fields, whose tags are in the range of `int` and whose values hold no
-- delimiter, is read as the fields one after the other, from an empty order on.
pub scan_message-render :
    (fs : List (ℕ × Bytes))
    → All IsField fs
    → scan_message (render fs) ≡ apply_fields default_order fs
unfolding scan_message
scan_message-render fs h =
    ap (λ s. s.order)
      (loop-render fs default_order (length (render fs) + 1) h (omega (arith, length-render fs)))

-- On any message the loop is left where the message ends or at its `break`, not by the end of its
-- fuel.
pub scan_exit :
    (message : Bytes)
    → scan_round
        (loop (length message + 1) scan_round (record { ptr = message; order = default_order }))
      ≡ none
scan_exit message =
    loop_exit (λ s. Unit {0}) (λ s. length s.ptr) scan_round (λ s t p e. (tt, round_fewer s t e))
      (length message + 1) (record { ptr = message; order = default_order }) tt (omega arith)
