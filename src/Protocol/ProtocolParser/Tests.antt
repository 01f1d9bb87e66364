-- ===== src/Protocol/ProtocolParser/Tests.antt =====
-- One order in both binary formats, and a path that names one of them.
use hft_fix_engine.Base.{◌≡◌, true, [], some, codes, refl, arith, take, length, decimal}
use hft_fix_engine.Protocol.ProtocolParser.{ouch, sbe, parse_protocol_type, parse_in_place}
use hft_fix_engine.Protocol.ProtocolParser.Ouch.{
  Entry, encode_ouch, ouch_entry, parse_in_place-encode_ouch,
}
use hft_fix_engine.Protocol.ProtocolParser.Sbe.{
  SbeEntry, encode_sbe, sbe_entry, parse_in_place-encode_sbe,
}

abbrev entry : Entry
entry = record {
  seq_num = 7;
  is_buy = true;
  quantity = 100;
  price = 35850000;
  symbol = codes "PETR4";
}

abbrev sbe_message : SbeEntry
sbe_message = record {
  header = record { block_length = 36; template_id = 514; schema_id = 1; version = 1 };
  seq_num = 7;
  cl_ord_id_num = 42;
  price = 35850000;
  quantity = 100;
  side = 1;
  symbol = codes "PETR4";
  time_in_force = 0;
}

parse_in_place-encode_ouch_example :
    parse_in_place
      (codes "old")
      ouch
      (some (encode_ouch entry (codes "ORD7") b' ' 9 (codes "xyz")))
      49
    ≡ ouch_entry entry (codes "ORD7") b' ' 9
parse_in_place-encode_ouch_example =
    parse_in_place-encode_ouch entry (codes "ORD7") b' ' 9 (codes "old") (codes "xyz") 49 refl
      (omega arith) (omega arith) (omega arith) (omega arith) (omega arith) refl (omega arith) refl

parse_in_place-encode_sbe_example :
    let order = parse_in_place (codes "overwritten") sbe (some (encode_sbe sbe_message 0 [])) 46 in
    (order ≡ sbe_entry sbe_message 0 (codes "overwritten"))
    × (take (length (decimal 42)) order.cl_ord_id_buf ≡ decimal 42)
parse_in_place-encode_sbe_example =
    parse_in_place-encode_sbe sbe_message 0 (codes "overwritten") [] 46 refl (omega arith)
      (omega arith) (omega arith) (omega arith) (omega arith) (omega arith) refl

named_ouch : parse_protocol_type (codes "./SBE_OUCH.data") ≡ ouch
unfolding parse_protocol_type
named_ouch = refl
