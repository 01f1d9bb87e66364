-- ===== src/Protocol/ProtocolParser/Wire.antt =====
-- Words and padded text on the wire, and how they are read.
use hft_fix_engine.Base.{
  ℕ, zero, suc, ◌+◌, ◌-◌, ◌/◌, ◌%◌, ◌^◌, ◌<◌, ◌≤◌, ◌≡◌, refl, ap, ◌∙◌, true, false, [], ◌∷◌, ◌++◌,
  take, get_or, length, length-append, replicate, length-replicate, Bytes, arith, take-append_le,
}
use native.Mathlib.Nat.{pow-suc}
use hft_fix_engine.Protocol.ProtocolParser.{is_pad, trim_length, trim_right, read_word, field}

-- The low bytes of a number, lowest first.
abbrev pub word : ℕ → ℕ → Bytes
word zero n = []
word (suc size) n = (n % 256) ∷ word size (n / 256)

pub length-word : (size n : ℕ) → length (word size n) ≡ size
length-word zero n = refl
length-word (suc size) n = ap suc (length-word size (n / 256))

pub read_word-word : (size n : ℕ) → n < 256 ^ size → read_word (word size n) ≡ n
unfolding read_word
read_word-word zero n h = omega arith
read_word-word (suc size) n h =
    let next : n / 256 < 256 ^ size = omega (arith, pow-suc 256 size) in
    omega (arith, read_word-word size (n / 256) next)

-- A field behind `before` of a message.
pub field-append :
    (offset size : ℕ) (before part rest : Bytes)
    → length before ≡ offset
    → length part ≡ size
    → field offset size (before ++ (part ++ rest)) ≡ part
field-append zero size [] part rest e f = take-append_le size part rest f
field-append (suc offset) size [] part rest e f = absurd (omega arith)
field-append zero size (b ∷ before) part rest e f = absurd (omega arith)
field-append (suc offset) size (b ∷ before) part rest e f =
    field-append offset size before part rest (omega arith) f

-- Text padded with `pad` bytes to a size.
abbrev pub padded : ℕ → ℕ → Bytes → Bytes
padded size pad text = text ++ replicate (size - length text) pad

pub length-padded :
    (size pad : ℕ) (text : Bytes) → length text ≤ size → length (padded size pad text) ≡ size
length-padded size pad text h = omega (
  arith,
  length-append text (replicate (size - length text) pad),
  length-replicate (size - length text) pad,
)

-- No byte of padding at the end.
abbrev pub IsTrimmed : Bytes → Type 0
IsTrimmed [] = Unit
IsTrimmed (c ∷ cs) = is_pad (get_or (c ∷ cs) (length cs) 0) ≡ false

get_or-padding :
    (text : Bytes) (pad n i : ℕ)
    → length text ≤ i
    → i < length text + n
    → get_or (text ++ replicate n pad) i 0 ≡ pad
get_or-padding [] pad zero i le lt = absurd (omega arith)
get_or-padding [] pad (suc n) zero le lt = refl
get_or-padding [] pad (suc n) (suc i) le lt = get_or-padding [] pad n i (omega arith) (omega arith)
get_or-padding (c ∷ cs) pad n zero le lt = absurd (omega arith)
get_or-padding (c ∷ cs) pad n (suc i) le lt = get_or-padding cs pad n i (omega arith) (omega arith)

-- Position `m` is the end, or the byte in front of it is no padding.
abbrev Ends : Bytes → ℕ → Type 0
Ends sv zero = Unit
Ends sv (suc m) = is_pad (get_or sv m 0) ≡ false

trim_length-down :
    (sv : Bytes) (m n : ℕ)
    → ((i : ℕ) → m ≤ i → i < m + n → is_pad (get_or sv i 0) ≡ true)
    → Ends sv m
    → trim_length sv (m + n) ≡ m
unfolding trim_length
trim_length-down sv zero zero pads e = refl
trim_length-down sv (suc m) zero pads e =
    ap (trim_length sv) (let s : suc m + 0 ≡ suc m = omega arith in s) ∙ rw (e, trim_length) refl
trim_length-down sv m (suc n) pads e =
    ap (trim_length sv) (let s : m + suc n ≡ suc (m + n) = omega arith in s)
    ∙ rw (pads (m + n) (omega arith) (omega arith), trim_length)
        (trim_length-down sv m n (λ i le lt. pads i le (omega arith)) e)

get_or-append_left :
    (text rest : Bytes) (i : ℕ) → i < length text → get_or (text ++ rest) i 0 ≡ get_or text i 0
get_or-append_left [] rest i h = absurd (omega arith)
get_or-append_left (c ∷ cs) rest zero h = refl
get_or-append_left (c ∷ cs) rest (suc i) h = get_or-append_left cs rest i (omega arith)

IsTrimmed-Ends : (text rest : Bytes) → IsTrimmed text → Ends (text ++ rest) (length text)
IsTrimmed-Ends [] rest t = tt
IsTrimmed-Ends (c ∷ cs) rest t =
    ap is_pad (get_or-append_left (c ∷ cs) rest (length cs) (omega arith)) ∙ t

pub trim_right-padded :
    (size pad : ℕ) (text : Bytes)
    → is_pad pad ≡ true
    → length text ≤ size
    → IsTrimmed text
    → trim_right (padded size pad text) ≡ text
unfolding trim_right
trim_right-padded size pad text p h t =
    let n = size - length text in
    let sv = padded size pad text in
    let whole : length sv ≡ length text + n =
      omega (arith, length-append text (replicate n pad), length-replicate n pad) in
    ap (λ len. take (trim_length sv len) sv) whole
    ∙ ap (λ len. take len sv)
        (trim_length-down sv (length text) n
          (λ i le lt. ap is_pad (get_or-padding text pad n i le lt) ∙ p)
          (IsTrimmed-Ends text (replicate n pad) t))
    ∙ take-append_le (length text) text (replicate n pad) refl
