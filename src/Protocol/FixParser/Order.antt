-- ===== src/Protocol/FixParser/Order.antt =====
-- An order printed as a FIX message is read back whole.
use hft_fix_engine.Base.{
  ℕ, ◌+◌, ◌^◌, ◌<◌, ◌≡◌, refl, sym, ap, ap₂, ◌∙◌, ◌/◌, ◌%◌, suc, All-append, ℤ, pos, negsuc,
  pos_part, neg_part, false, List, [], ◌∷◌, some, All, length, take_all, replicate, ◌==◌, Bytes,
  arith, IsDigit, decimal, All-decimal, from_chars_u64-decimal, from_chars_int-print_int, print_int,
  IsInt,
}
use hft_fix_engine.Protocol.ParsedOrder.{ParsedOrder, default_order}
use hft_fix_engine.Protocol.FixParser.{
  is_delimiter, set_field, first_or, scan_message, parse_in_place,
}
use hft_fix_engine.Protocol.FixParser.Price.{
  print_price, print_magnitude, six_digits, six_digits-IsDigit, parse_fixed_point_price-print_price,
}
use hft_fix_engine.Protocol.FixParser.Fields.{
  render, apply_fields, IsField, length-render, scan_message-render,
}

-- The fields of an order, in the order in which the feed writes them.
abbrev pub fields : ParsedOrder → List (ℕ × Bytes)
fields o =
    (35, o.msg_type)
    ∷ (34, decimal o.seq_num)
    ∷ (11, o.cl_ord_id)
    ∷ (55, o.symbol)
    ∷ (54, print_int o.side)
    ∷ (38, print_int o.quantity)
    ∷ (44, print_price o.price)
    ∷ []

abbrev pub print_order : ParsedOrder → Bytes
print_order o = render (fields o)

abbrev pub IsPlain : Bytes → Type 0
IsPlain = All (λ c. is_delimiter c ≡ false)

-- An order that a message can carry: its text holds no delimiter, its numbers are in the ranges of
-- their types, its first character is that of its type, and what the parser does not set is as it
-- starts out.
pub record IsPrintable (o : ParsedOrder) : Type 0 where
  pub type_plain : IsPlain o.msg_type
  pub id_plain : IsPlain o.cl_ord_id
  pub symbol_plain : IsPlain o.symbol
  pub side_in : IsInt o.side
  pub quantity_in : IsInt o.quantity
  pub price_in : pos_part o.price + neg_part o.price < 2 ^ 63
  pub seq_in : o.seq_num < 2 ^ 64
  pub first : o.msg_type_char ≡ first_or default_order.msg_type_char o.msg_type
  pub no_latency : o.latency_ns ≡ 0
  pub no_buffer : o.cl_ord_id_buf ≡ replicate 24 0

digits-IsPlain : (ds : Bytes) → All IsDigit ds → IsPlain ds
digits-IsPlain [] h = tt
digits-IsPlain (d ∷ ds) h = (ground arith, digits-IsPlain ds h.1)

print_int-IsPlain : (z : ℤ) → IsPlain (print_int z)
print_int-IsPlain (pos n) = digits-IsPlain (decimal n) (All-decimal n)
print_int-IsPlain (negsuc n) = (refl, digits-IsPlain (decimal (suc n)) (All-decimal (suc n)))

print_magnitude-IsPlain : (n : ℕ) → IsPlain (print_magnitude n)
print_magnitude-IsPlain n =
    All-append (λ c. is_delimiter c ≡ false) (decimal (n / 1000000))
      (b'.' ∷ six_digits (n % 1000000))
      (digits-IsPlain (decimal (n / 1000000)) (All-decimal (n / 1000000)))
      (refl, digits-IsPlain (six_digits (n % 1000000)) (six_digits-IsDigit (n % 1000000)))

print_price-IsPlain : (z : ℤ) → IsPlain (print_price z)
print_price-IsPlain (pos n) = print_magnitude-IsPlain n
print_price-IsPlain (negsuc n) = (refl, print_magnitude-IsPlain (suc n))

fields-IsField : (o : ParsedOrder) → IsPrintable o → All IsField (fields o)
fields-IsField o p = (
  (omega arith, p.type_plain),
  (
    (omega arith, digits-IsPlain (decimal o.seq_num) (All-decimal o.seq_num)),
    (
      (omega arith, p.id_plain),
      (
        (omega arith, p.symbol_plain),
        (
          (omega arith, print_int-IsPlain o.side),
          (
            (omega arith, print_int-IsPlain o.quantity),
            ((omega arith, print_price-IsPlain o.price), tt),
          ),
        ),
      ),
    ),
  ),
)

apply_fields-fields : (o : ParsedOrder) → IsPrintable o → apply_fields default_order (fields o) ≡ o
unfolding set_field
apply_fields-fields o p =
    let side = from_chars_int-print_int (pos 0) o.side p.side_in in
    let quantity = from_chars_int-print_int (pos 0) o.quantity p.quantity_in in
    let price = parse_fixed_point_price-print_price o.price p.price_in in
    let seq = from_chars_u64-decimal 0 o.seq_num p.seq_in in
    rw (side, quantity, price, seq)
      (ap (λ c. record o { msg_type_char = c; latency_ns = 0; cl_ord_id_buf = replicate 24 0 })
          (sym p.first)
        ∙ ap₂ (λ n b. record o { latency_ns = n; cl_ord_id_buf = b }) (sym p.no_latency)
            (sym p.no_buffer))

not_zero : (n : ℕ) → 0 < n → (n == 0) ≡ false
not_zero n h = ground arith

-- An order is read back from its message whole if its texts hold no delimiter, its `msg_type_char` is
-- the first byte of its `msg_type` (the starting value if that is empty), side and quantity are in the
-- range of `int`, the magnitude of the price is below 2 ^ 63, the number is below 2 ^ 64, and the
-- latency and the identifier buffer are as they start out.
pub parse_in_place-print_order :
    (o : ParsedOrder)
    → IsPrintable o
    → parse_in_place (some (print_order o)) (length (print_order o)) ≡ o
unfolding parse_in_place
parse_in_place-print_order o p =
    let m = print_order o in
    let some_bytes : (length m == 0) ≡ false =
      not_zero (length m) (omega (arith, length-render (fields o))) in
    rw (some_bytes, parse_in_place)
      (ap scan_message (take_all m)
        ∙ scan_message-render (fields o) (fields-IsField o p)
        ∙ apply_fields-fields o p)
