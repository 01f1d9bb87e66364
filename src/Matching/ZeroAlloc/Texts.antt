-- ===== src/Matching/ZeroAlloc/Texts.antt =====
-- The texts in char arrays, described without the copying: include/hft/matching/ZeroAllocHftOrderBook.hpp,
-- `copy_sv_to_char` and `copy_char_to_char`.
use hft_fix_engine.Base.{
  ℕ, zero, suc, ◌≤◌, ◌≡◌, refl, sym, ap, ◌∙◌, inl, inr, Bool-cases, [], ◌∷◌, ◌++◌, set, take, drop,
  length, length-take, take-nil, min, ◌-◌, ◌==◌, if◌then◌else◌, Bytes, arith,
}
use hft_fix_engine.Matching.ZeroAlloc.Level.{
  max_cl_ord_id_len, strnlen, write_text, copy_char_to_char, copy_sv_to_char,
}

-- The text in a char array.
abbrev pub text : Bytes → Bytes
text chars = take (strnlen chars (max_cl_ord_id_len - 1)) chars

-- The bytes in front of the first zero, at most `max` of them.
unfoldable pub c_text : ℕ → Bytes → Bytes
c_text max [] = []
c_text zero (c ∷ cs) = []
c_text (suc max) (c ∷ cs) = let rest = c_text max cs in if c == 0 then [] else c ∷ rest

-- The first byte, if there is one, set to zero.
abbrev ended : Bytes → Bytes
ended [] = []
ended (c ∷ cs) = 0 ∷ cs

-- An array that begins with a text and a zero, and goes on as it was.
unfoldable pub put_text : Bytes → Bytes → Bytes
put_text old t = t ++ ended (drop (length t) old)

take-strnlen : (max : ℕ) (src : Bytes) → take (strnlen src max) src ≡ c_text max src
unfolding strnlen c_text
take-strnlen max [] = take-nil (strnlen [] max)
take-strnlen zero (c ∷ cs) = refl
take-strnlen (suc max) (c ∷ cs) = elim (Bool-cases (c == 0)) [
  | inl e ↦ rw e refl
  | inr e ↦ rw e (ap (λ t. c ∷ t) (take-strnlen max cs))
]

strnlen_le : (max : ℕ) (src : Bytes) → strnlen src max ≤ length src
unfolding strnlen
strnlen_le max [] = omega arith
strnlen_le zero (c ∷ cs) = omega arith
strnlen_le (suc max) (c ∷ cs) = ground (arith, strnlen_le max cs)

set-ended : (t ys : Bytes) → set (t ++ ys) (length t) 0 ≡ t ++ ended ys
set-ended [] [] = refl
set-ended [] (y ∷ ys) = refl
set-ended (x ∷ xs) ys = ap (λ l. x ∷ l) (set-ended xs ys)

write_text-put_text :
    (dest src : Bytes) (n : ℕ) → n ≤ length src → write_text dest src n ≡ put_text dest (take n src)
unfolding put_text
write_text-put_text dest src n h =
    let e : n ≡ length (take n src) = omega (arith, length-take n src) in
    ap (λ k. set (take n src ++ drop k dest) k 0) e
    ∙ set-ended (take n src) (drop (length (take n src)) dest)

take-min : (max : ℕ) (sv : Bytes) → take (min (length sv) max) sv ≡ take max sv
take-min max [] = take-nil _ ∙ sym (take-nil max)
take-min zero (c ∷ cs) =
    ap (λ n. take n (c ∷ cs)) (let e : min (suc (length cs)) 0 ≡ 0 = omega arith in e)
take-min (suc max) (c ∷ cs) =
    ap (λ n. take n (c ∷ cs))
      (let e : min (suc (length cs)) (suc max) ≡ suc (min (length cs) max) = omega arith in e)
    ∙ ap (λ t. c ∷ t) (take-min max cs)

-- A copied view is its first `max` bytes.
pub copy_sv_to_char-put_text :
    (dest sv : Bytes) (max : ℕ) → copy_sv_to_char dest sv max ≡ put_text dest (take max sv)
unfolding copy_sv_to_char
copy_sv_to_char-put_text dest sv max =
    write_text-put_text dest sv (min (length sv) max) (omega arith)
    ∙ ap (put_text dest) (take-min max sv)

-- A copied array is its text; nothing behind that is read.
pub copy_char_to_char-put_text :
    (dest src : Bytes) (max : ℕ)
    → copy_char_to_char dest src max ≡ put_text dest (take (strnlen src max) src)
unfolding copy_char_to_char
copy_char_to_char-put_text dest src max =
    write_text-put_text dest src (strnlen src max) (strnlen_le max src)

pub copy_char_to_char-c_text :
    (dest src : Bytes) (max : ℕ) → copy_char_to_char dest src max ≡ put_text dest (c_text max src)
copy_char_to_char-c_text dest src max =
    copy_char_to_char-put_text dest src max ∙ ap (put_text dest) (take-strnlen max src)
