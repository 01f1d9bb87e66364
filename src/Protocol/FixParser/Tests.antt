-- ===== src/Protocol/FixParser/Tests.antt =====
-- A new order for 100 shares at 35.85, a refund of three cents and a half, and a message cut short.
use hft_fix_engine.Base.{
  ℕ, ◌+◌, ◌*◌, ◌≡◌, List, [], ◌∷◌, ◌++◌, pos, negsuc, none, some, length, Bytes, codes, refl, arith,
  loop, number_onto,
}
use hft_fix_engine.Protocol.ParsedOrder.{ParsedOrder, default_order}
use hft_fix_engine.Protocol.FixParser.{
  parse_magnitude, parse_fixed_point_price, scan_round, parse_in_place,
}
use hft_fix_engine.Protocol.FixParser.Price.{
  weighted, print_price, parse_magnitude-weighted, parse_fixed_point_price-print_price,
}
use hft_fix_engine.Protocol.FixParser.Fields.{scan_exit}
use hft_fix_engine.Protocol.FixParser.Order.{print_order, IsPrintable, parse_in_place-print_order}

abbrev order : ParsedOrder
order = record default_order {
  msg_type = codes "D";
  msg_type_char = b'D';
  cl_ord_id = codes "ORD7";
  symbol = codes "PETR4";
  side = pos 1;
  quantity = pos 100;
  price = pos 35850000;
  seq_num = 7;
}

order-IsPrintable : IsPrintable order
order-IsPrintable = ground arith

parse_in_place-print_order_example :
    parse_in_place (some (print_order order)) (length (print_order order)) ≡ order
parse_in_place-print_order_example = parse_in_place-print_order order order-IsPrintable

parse_fixed_point_price-print_price_example :
    parse_fixed_point_price (print_price (negsuc 34999)) ≡ negsuc 34999
parse_fixed_point_price-print_price_example =
    parse_fixed_point_price-print_price (negsuc 34999) (omega arith)

parse_magnitude-weighted_example :
    parse_magnitude (codes "35" ++ (b'.' ∷ (codes "8512349" ++ [])))
    ≡ number_onto 0 (codes "35") * 1000000 + weighted 6 (codes "8512349")
parse_magnitude-weighted_example =
    parse_magnitude-weighted (codes "35") (codes "8512349") [] (ground arith) (ground arith) refl
      (omega arith)

abbrev some_fields : List (ℕ × Bytes)
some_fields = (54, codes "2") ∷ (9, codes "78") ∷ []

scan_exit_example :
    scan_round (
      loop
        (length (codes "54=2|38") + 1)
        scan_round
        (record { ptr = codes "54=2|38"; order = default_order }))
    ≡ none
scan_exit_example = scan_exit (codes "54=2|38")
