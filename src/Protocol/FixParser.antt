-- ===== src/Protocol/FixParser.antt =====
-- include/hft/protocol/FixParser.hpp: the tag=value parser and its fixed-point price. A range from
-- `ptr` to `end` is the bytes that it holds. An `int64_t` of the price stands here as its 64 bits, a
-- number below 2 ^ 64. The language leaves signed overflow undefined; the model wraps there, and the
-- theorems on prices ask that no overflow happens, so that none of them rests on that choice. The
-- digits of a price behind the sixth decimal are skipped by a loop that moves a local pointer only;
-- nothing of the result depends on it.
pub mod Price
pub mod Fields
pub mod Order
mod Tests
use hft_fix_engine.Base.{
  ℕ, ◌+◌, ◌-◌, ◌*◌, ◌/◌, ◌%◌, ◌^◌, ℤ, pos, negsuc, eqb_ℤ, Bool, ◌&&◌, ◌||◌, List, [], ◌∷◌, Option,
  none, some, take, length, ltb, ◌==◌, if◌then◌else◌, Bytes, loop, is_digit, from_chars_u64,
  from_chars_int,
}
use hft_fix_engine.Protocol.ParsedOrder.{ParsedOrder, default_order}

-- The loop over the integer part.
unfoldable pub read_integer : ℕ → Bytes → ℕ × Bytes
read_integer n [] = (n, [])
read_integer n (c ∷ cs) =
    let more = read_integer ((n * 10 + (c - b'0')) % 2 ^ 64) cs in
    if is_digit c then more else (n, c ∷ cs)

-- The loop over the decimals, while `multiplier` is positive.
unfoldable pub read_decimals : ℕ → ℕ → Bytes → ℕ
read_decimals value multiplier [] = value
read_decimals value multiplier (c ∷ cs) =
    let more = read_decimals ((value + (c - b'0') * multiplier) % 2 ^ 64) (multiplier / 10) cs in
    if is_digit c && ltb 0 multiplier then more else value

abbrev decimals : ℕ → Bytes → ℕ
decimals value [] = value
decimals value (c ∷ cs) = if c == b'.' then read_decimals value 100000 cs else value

-- `value`, before the sign.
unfoldable pub parse_magnitude : Bytes → ℕ
unfolding read_integer read_decimals
parse_magnitude text =
    let (integer_part, rest) = read_integer 0 text in
    decimals (integer_part * 1000000 % 2 ^ 64) rest

-- The `int64_t` of these 64 bits.
abbrev pub int64_of : ℕ → ℤ
int64_of n = if ltb n (2 ^ 63) then pos n else negsuc (2 ^ 64 - 1 - n)

unfoldable pub parse_fixed_point_price : Bytes → ℤ
unfolding parse_magnitude
parse_fixed_point_price [] = pos 0
parse_fixed_point_price (c ∷ cs) =
    if c == b'-'
    then int64_of ((2 ^ 64 - parse_magnitude cs) % 2 ^ 64)
    else int64_of (parse_magnitude (c ∷ cs))

-- The loop that stops at a byte: what it passes, and where it stops.
unfoldable pub until : (ℕ → Bool) → Bytes → Bytes × Bytes
until stop [] = ([], [])
until stop (c ∷ cs) =
    let (before, rest) = until stop cs in if stop c then ([], c ∷ cs) else (c ∷ before, rest)

abbrev pub is_equals : ℕ → Bool
is_equals c = c == b'='

abbrev pub is_delimiter : ℕ → Bool
is_delimiter c = c == 1 || c == b'|'

abbrev pub first_or : ℕ → Bytes → ℕ
first_or old [] = old
first_or old (c ∷ cs) = c

-- The `switch` over the tag.
unfoldable pub set_field : ℤ → Bytes → ParsedOrder → ParsedOrder
unfolding from_chars_int from_chars_u64 parse_fixed_point_price
set_field tag value order =
    if eqb_ℤ tag (pos 35)
    then record order { msg_type = value; msg_type_char = first_or order.msg_type_char value }
    else if eqb_ℤ tag (pos 11)
    then record order { cl_ord_id = value }
    else if eqb_ℤ tag (pos 55)
    then record order { symbol = value }
    else if eqb_ℤ tag (pos 54)
    then record order { side = from_chars_int order.side value }
    else if eqb_ℤ tag (pos 38)
    then record order { quantity = from_chars_int order.quantity value }
    else if eqb_ℤ tag (pos 44)
    then record order { price = parse_fixed_point_price value }
    else if eqb_ℤ tag (pos 34)
    then record order { seq_num = from_chars_u64 order.seq_num value }
    else order

-- What the loop over the message carries.
pub record Scan : Type 0 where
  pub ptr : Bytes
  pub order : ParsedOrder

-- The delimiter behind a value, if the message goes on.
abbrev pub skip_delimiter : Bytes → Bytes
skip_delimiter [] = []
skip_delimiter (c ∷ cs) = cs

abbrev scan_value : ℤ → Bytes × Bytes → ParsedOrder → Scan
scan_value tag (value, rest) order = record {
  ptr = skip_delimiter rest;
  order = set_field tag value order;
}

abbrev scan_tag : Bytes × Bytes → ParsedOrder → Option Scan
scan_tag (tag, []) order = none
scan_tag (tag, equals ∷ rest) order =
    some (scan_value (from_chars_int (pos 0) tag) (until is_delimiter rest) order)

-- One round: `none` where the message ends, or at the `break` behind a tag with no `=`.
unfoldable pub scan_round : Scan → Option Scan
unfolding until set_field
scan_round s = scan_tag (until is_equals s.ptr) s.order

-- A round takes the `=` at least, so one round more than there are bytes is enough.
unfoldable pub scan_message : Bytes → ParsedOrder
unfolding loop scan_round
scan_message message =
    (loop (length message + 1) scan_round (record { ptr = message; order = default_order })).order

-- A null buffer is `none`; else it is the memory from its pointer on, of which `len` bytes are valid.
unfoldable pub parse_in_place : Option Bytes → ℕ → ParsedOrder
unfolding scan_message
parse_in_place none len = default_order
parse_in_place (some buffer) len =
    if len == 0 then default_order else scan_message (take len buffer)
