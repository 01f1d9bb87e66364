-- ===== src/Protocol/GapDetector/Message.antt =====
-- The ResendRequest text fits its buffer, and what its BodyLength should be.
use hft_fix_engine.Base.{
  ℕ, ◌+◌, ◌≤◌, ◌<◌, ◌≡◌, ◌≢◌, ◌^◌, ◌⊎◌, inl, inr, [], ◌∷◌, length, length-append, codes, decimal,
  length-decimal, length-decimal_lt, arith,
}
use hft_fix_engine.Protocol.GapDetector.{field, resend_body, resend_text}

pub length-resend_body :
    (b e : ℕ) → length (resend_body b e) ≡ 38 + length (decimal b) + length (decimal e)
unfolding resend_body
length-resend_body b e = omega (
  arith,
  length-append (decimal b) (1 ∷ []),
  length-append (decimal e) (1 ∷ []),
  length-append (field (codes "7=") (decimal b)) (field (codes "16=") (decimal e)),
)

-- The text never exceeds 100 bytes, so the 256 byte buffer holds it whole.
pub length-resend_text : (b e : ℕ) → length (resend_text b e) ≤ 100
unfolding resend_text
length-resend_text b e = omega (
  arith,
  length-append (resend_body b e) (field (codes "10=") (codes "128")),
  length-resend_body b e,
  length-decimal b,
  length-decimal e,
)

-- BodyLength is printed as 78 whatever the numbers are: it is wrong unless both have twenty digits.
pub body_length_wrong : (b e : ℕ) → (b < 10 ^ 19) ⊎ (e < 10 ^ 19) → length (resend_body b e) ≢ 78
body_length_wrong b e (inl h) =
    omega (arith, length-resend_body b e, length-decimal_lt b h, length-decimal e)
body_length_wrong b e (inr h) =
    omega (arith, length-resend_body b e, length-decimal b, length-decimal_lt e h)
