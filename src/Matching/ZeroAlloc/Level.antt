-- ===== src/Matching/ZeroAlloc/Level.antt =====
-- include/hft/matching/ZeroAllocHftOrderBook.hpp: orders, texts in char arrays, and `PriceLevel`.
use hft_fix_engine.Base.{
  ℕ, suc, zero, ◌+◌, ◌-◌, ◌%◌, ◌^◌, min, ℤ, pos, Bool, true, false, List, [], ◌∷◌, ◌++◌, length,
  get_or, set, take, drop, replicate, ltb, ◌==◌, if◌then◌else◌, Bytes, add_u32,
}

-- MAX_CL_ORD_ID_LEN, MAX_BOOK_LEVELS and MAX_ORDERS_PER_LEVEL.
abbrev pub max_cl_ord_id_len : ℕ
max_cl_ord_id_len = 32

abbrev pub max_book_levels : ℕ
max_book_levels = 64

abbrev pub max_orders_per_level : ℕ
max_orders_per_level = 32

-- `strnlen`: the bytes in front of the first zero, at most `max`.
unfoldable pub strnlen : Bytes → ℕ → ℕ
strnlen [] max = 0
strnlen (c ∷ cs) zero = 0
strnlen (c ∷ cs) (suc max) = let rest = strnlen cs max in if c == 0 then 0 else suc rest

-- `memcpy` of the first `len` bytes, and the zero behind them.
abbrev pub write_text : Bytes → Bytes → ℕ → Bytes
write_text dest src len = set (take len src ++ drop len dest) len 0

unfoldable pub copy_sv_to_char : Bytes → Bytes → ℕ → Bytes
copy_sv_to_char dest sv max_len = write_text dest sv (min (length sv) max_len)

unfoldable pub copy_char_to_char : Bytes → Bytes → ℕ → Bytes
unfolding strnlen
copy_char_to_char dest src max_len = write_text dest src (strnlen src max_len)

pub record BookOrder : Type 0 where
  pub order_id : ℕ
  pub cl_ord_id : Bytes
  pub side : ℤ
  pub price : ℤ
  pub remaining_qty : ℕ
  pub timestamp_ns : ℕ
  pub active : Bool

abbrev pub blank_order : BookOrder
blank_order = record {
  order_id = 0;
  cl_ord_id = replicate max_cl_ord_id_len 0;
  side = pos 1;
  price = pos 0;
  remaining_qty = 0;
  timestamp_ns = 0;
  active = false;
}

pub record PriceLevel : Type 0 where
  pub price : ℤ
  pub orders : List BookOrder
  pub head_order_idx : ℕ
  pub order_count : ℕ
  pub cached_total_qty : ℕ

abbrev pub blank_level : PriceLevel
blank_level = record {
  price = pos 0;
  orders = replicate max_orders_per_level blank_order;
  head_order_idx = 0;
  order_count = 0;
  cached_total_qty = 0;
}

unfoldable pub reset : PriceLevel → PriceLevel
reset lvl = record lvl { price = pos 0; head_order_idx = 0; order_count = 0; cached_total_qty = 0 }

unfoldable pub front_order : PriceLevel → BookOrder
front_order lvl = get_or lvl.orders lvl.head_order_idx blank_order

unfoldable pub pop_front_order : PriceLevel → PriceLevel
pop_front_order lvl = if lvl.order_count == 0 then lvl else record lvl {
  head_order_idx =
      if lvl.order_count - 1 == 0 then 0 else (lvl.head_order_idx + 1) % max_orders_per_level;
  order_count = lvl.order_count - 1;
}

-- The node that `push_back_order` writes over the old one.
abbrev pub written : BookOrder → ℕ → Bytes → ℤ → ℤ → ℕ → ℕ → BookOrder
written node id cl_ord_id side p qty ts = record {
  order_id = id;
  cl_ord_id = copy_sv_to_char node.cl_ord_id cl_ord_id (max_cl_ord_id_len - 1);
  side = side;
  price = p;
  remaining_qty = qty;
  timestamp_ns = ts;
  active = true;
}

unfoldable pub push_back_order : PriceLevel → ℕ → Bytes → ℤ → ℤ → ℕ → ℕ → PriceLevel
push_back_order lvl id cl_ord_id side p qty ts =
    let idx = (lvl.head_order_idx + lvl.order_count) % max_orders_per_level in
    if ltb lvl.order_count max_orders_per_level
    then record lvl {
      orders =
          set lvl.orders idx
            (written (get_or lvl.orders idx blank_order) id cl_ord_id side p qty ts);
      cached_total_qty = add_u32 lvl.cached_total_qty qty;
      order_count = lvl.order_count + 1;
    }
    else lvl

-- `uint32_t` subtraction.
abbrev pub sub_u32 : ℕ → ℕ → ℕ
sub_u32 a b = (a + (2 ^ 32 - b)) % 2 ^ 32

-- What a match of `qty` takes from the front order and from the total.
unfoldable pub take_from_front : PriceLevel → ℕ → PriceLevel
unfolding front_order
take_from_front lvl qty =
    let front = front_order lvl in
    record lvl {
      orders =
          set lvl.orders lvl.head_order_idx
            (record front { remaining_qty = front.remaining_qty - qty });
      cached_total_qty = sub_u32 lvl.cached_total_qty qty;
    }
