-- ===== src/Protocol/ParsedOrder.antt =====
-- include/hft/protocol/ParsedOrder.hpp: a decoded order. Text is its bytes, `int` and `int64_t` are
-- integers, `uint64_t` is a native number; a record literal stands for the default initialisers.
use hft_fix_engine.Base.{ℕ, ℤ, pos, Bytes, [], replicate}

pub record ParsedOrder : Type 0 where
  pub msg_type : Bytes
  pub msg_type_char : ℕ
  pub cl_ord_id : Bytes
  pub symbol : Bytes
  pub side : ℤ
  pub quantity : ℤ
  pub price : ℤ
  pub seq_num : ℕ
  pub latency_ns : ℕ
  pub cl_ord_id_buf : Bytes

-- `ParsedOrder{}`.
abbrev pub default_order : ParsedOrder
default_order = record {
  msg_type = [];
  msg_type_char = b'?';
  cl_ord_id = [];
  symbol = [];
  side = pos 0;
  quantity = pos 0;
  price = pos 0;
  seq_num = 0;
  latency_ns = 0;
  cl_ord_id_buf = replicate 24 0;
}
