-- ===== src/Protocol/ProtocolParser.antt =====
-- include/hft/protocol/ProtocolParser.hpp: the three formats of an order entry. `memcpy` into a packed
-- struct reads each number from its bytes, lowest first, as on the machines that the engine targets.
-- A message is the memory from its pointer on, of which the call names `len` bytes.
pub mod Search
pub mod Wire
pub mod Layout
pub mod Ouch
pub mod Sbe
mod Tests
use hft_fix_engine.Base.{
  ℕ, zero, suc, ◌+◌, ◌-◌, ◌*◌, ◌%◌, ◌^◌, ℤ, pos, negsuc, Bool, true, false, ◌&&◌, ◌||◌, List, [],
  ◌∷◌, ◌++◌, Option, none, some, take, drop, get_or, set, length, ltb, leb, ◌==◌, if◌then◌else◌,
  Bytes, decimal, codes,
}
use hft_fix_engine.Protocol.ParsedOrder.{ParsedOrder, default_order}
use hft_fix_engine.Protocol.FixParser as FixParser

pub data ProtocolType : Type 0 where
  fix ouch sbe : ProtocolType

-- `c + ('a' - 'A')` for a capital.
abbrev pub lower : ℕ → ℕ
lower c = if leb b'A' c && leb c b'Z' then c + (b'a' - b'A') else c

-- The loop over `j`: the needle against the haystack from `i` on.
unfoldable pub matches_ci : Bytes → Bytes → Bool
matches_ci haystack [] = true
matches_ci [] (n ∷ ns) = false
matches_ci (h ∷ hs) (n ∷ ns) =
    let more = matches_ci hs ns in if lower h == lower n then more else false

abbrev pub tail : Bytes → Bytes
tail [] = []
tail (c ∷ cs) = cs

-- The loop over `i`, with the rounds that are left and the haystack from `i` on.
unfoldable pub scan_ci : ℕ → Bytes → Bytes → Bool
scan_ci zero haystack needle = false
scan_ci (suc rounds) haystack needle =
    let more = scan_ci rounds (tail haystack) needle in
    if matches_ci haystack needle then true else more

unfoldable pub contains_ci : Bytes → Bytes → Bool
unfolding scan_ci matches_ci
contains_ci haystack [] = true
contains_ci haystack (n ∷ ns) =
    if ltb (length haystack) (length (n ∷ ns))
    then false
    else scan_ci (length haystack - length (n ∷ ns) + 1) haystack (n ∷ ns)

unfoldable pub parse_protocol_type : Bytes → ProtocolType
unfolding contains_ci
parse_protocol_type name =
    if contains_ci name (codes "ouch")
    then ouch
    else if contains_ci name (codes "sbe")
    then sbe
    else fix

unfoldable pub protocol_type_to_string : ProtocolType → Bytes
protocol_type_to_string ouch = codes "OUCH (Nasdaq Binary)"
protocol_type_to_string sbe = codes "SBE (CME iLink 3 Binary)"
protocol_type_to_string fix = codes "FIX 4.2 (ASCII Tag=Value)"

pub record OuchEnterOrderPacket : Type 0 where
  pub packet_type : ℕ
  pub seq_num : ℕ
  pub cl_ord_id : Bytes
  pub side : ℕ
  pub quantity : ℕ
  pub price_scaled : ℕ
  pub symbol : Bytes
  pub timestamp_ns : ℕ

pub record SbeHeader : Type 0 where
  pub block_length : ℕ
  pub template_id : ℕ
  pub schema_id : ℕ
  pub version : ℕ

pub record SbeNewOrderSinglePacket : Type 0 where
  pub header : SbeHeader
  pub seq_num : ℕ
  pub cl_ord_id_num : ℕ
  pub price_scaled : ℕ
  pub quantity : ℕ
  pub side : ℕ
  pub symbol : Bytes
  pub time_in_force : ℕ

abbrev pub is_pad : ℕ → Bool
is_pad c = c == b' ' || c == 0

-- The loop of `trim_right`: the length that is left.
unfoldable pub trim_length : Bytes → ℕ → ℕ
trim_length sv zero = 0
trim_length sv (suc len) =
    let shorter = trim_length sv len in if is_pad (get_or sv len 0) then shorter else suc len

unfoldable pub trim_right : Bytes → Bytes
unfolding trim_length
trim_right sv = take (trim_length sv (length sv)) sv

-- A number from its bytes, lowest first.
unfoldable pub read_word : Bytes → ℕ
read_word [] = 0
read_word (b ∷ bs) = b + 256 * read_word bs

-- The bytes of a field, from its offset on.
abbrev pub field : ℕ → ℕ → Bytes → Bytes
field offset size payload = take size (drop offset payload)

abbrev byte_at : ℕ → Bytes → ℕ
byte_at offset payload = get_or payload offset 0

-- `sizeof` of either packet.
abbrev pub packet_size : ℕ
packet_size = 46

-- The `memcpy` of an OUCH packet.
unfoldable pub copy_ouch : Bytes → OuchEnterOrderPacket
unfolding read_word
copy_ouch payload = record {
  packet_type = byte_at 0 payload;
  seq_num = read_word (field 1 8 payload);
  cl_ord_id = field 9 14 payload;
  side = byte_at 23 payload;
  quantity = read_word (field 24 4 payload);
  price_scaled = read_word (field 28 4 payload);
  symbol = field 32 6 payload;
  timestamp_ns = read_word (field 38 8 payload);
}

-- The `memcpy` of an SBE packet.
unfoldable pub copy_sbe : Bytes → SbeNewOrderSinglePacket
unfolding read_word
copy_sbe payload = record {
  header = record {
    block_length = read_word (field 0 2 payload);
    template_id = read_word (field 2 2 payload);
    schema_id = read_word (field 4 2 payload);
    version = read_word (field 6 2 payload);
  };
  seq_num = read_word (field 8 8 payload);
  cl_ord_id_num = read_word (field 16 8 payload);
  price_scaled = read_word (field 24 8 payload);
  quantity = read_word (field 32 4 payload);
  side = byte_at 36 payload;
  symbol = field 37 8 payload;
  time_in_force = byte_at 45 payload;
}

-- `static_cast` of an unsigned word to the signed one of `2 * half` values.
abbrev pub signed : ℕ → ℕ → ℤ
signed half n = if ltb n half then pos n else negsuc (half + half - 1 - n)

unfoldable pub ouch_order : Bytes → ParsedOrder
unfolding copy_ouch trim_right
ouch_order payload =
    let packet = copy_ouch payload in
    record default_order {
      msg_type = codes "D";
      msg_type_char = b'D';
      seq_num = packet.seq_num;
      cl_ord_id = trim_right (field 9 14 payload);
      symbol = trim_right (field 32 6 payload);
      side = if packet.side == b'B' || packet.side == b'1' then pos 1 else pos 2;
      quantity = signed (2 ^ 31) packet.quantity;
      price = pos packet.price_scaled;
    }

-- `to_chars` into the 24 bytes of the order, behind which it writes a zero.
abbrev pub id_buffer : ℕ → Bytes
id_buffer n =
    set (decimal n ++ drop (length (decimal n)) default_order.cl_ord_id_buf) (length (decimal n)) 0

-- `to_chars` fails if the digits do not fit in 23 bytes. The view is taken of the buffer of the local
-- `order`, and a copy of the order keeps pointing there: behind the `return` it shows as many bytes of
-- what that memory then holds, `stale`. Where the local is the caller's own object, this is the buffer.
abbrev put_id : Bytes → ℕ → ParsedOrder → ParsedOrder
put_id stale n order =
    if leb (length (decimal n)) 23
    then record order { cl_ord_id_buf = id_buffer n; cl_ord_id = take (length (decimal n)) stale }
    else order

unfoldable pub sbe_order : Bytes → Bytes → ParsedOrder
unfolding copy_sbe trim_right
sbe_order stale payload =
    let packet = copy_sbe payload in
    let named = put_id stale packet.cl_ord_id_num (record default_order {
      msg_type = codes "D";
      msg_type_char = b'D';
      seq_num = packet.seq_num;
    }) in
    record named {
      symbol = trim_right (field 37 8 payload);
      side = pos packet.side;
      quantity = signed (2 ^ 31) packet.quantity;
      price = signed (2 ^ 63) packet.price_scaled;
    }

-- The branches of the `switch`; the FIX parser takes the length as a `uint32_t`.
abbrev parse_as : Bytes → ProtocolType → Bytes → ℕ → ParsedOrder
parse_as stale ouch payload len = if ltb len packet_size then default_order else ouch_order payload
parse_as stale sbe payload len =
    if ltb len packet_size then default_order else sbe_order stale payload
parse_as stale fix payload len = FixParser.parse_in_place (some payload) (len % 2 ^ 32)

-- `stale` is what the memory of the ended call holds when the order is read.
unfoldable pub parse_in_place : Bytes → ProtocolType → Option Bytes → ℕ → ParsedOrder
unfolding ouch_order sbe_order
parse_in_place stale type none len = default_order
parse_in_place stale type (some payload) len =
    if len == 0 then default_order else parse_as stale type payload len
