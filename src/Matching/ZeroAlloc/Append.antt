-- ===== src/Matching/ZeroAlloc/Append.antt =====
-- An order put at the back of a ring.
use hft_fix_engine.Base.{
  ℕ, zero, suc, ◌+◌, ◌-◌, ◌%◌, ◌^◌, ◌<◌, ◌≤◌, ◌≡◌, min, refl, ap, ap₂, ◌∙◌, false, [], ◌∷◌, ◌++◌,
  map, length, get_or, set, take, drop, All, All-append, sum, sum-append, map-append, length-set,
  get_or-set_self, lt→ltb, ◌==◌, Bytes, arith, ℤ, add_u32,
}
use hft_fix_engine.Common.SpscQueue.Window.{window, window-set, window-snoc}
use hft_fix_engine.Matching.ZeroAlloc.Level.{
  BookOrder, PriceLevel, blank_order, max_orders_per_level, max_cl_ord_id_len, push_back_order,
  written, strnlen, copy_sv_to_char,
}
use hft_fix_engine.Matching.ZeroAlloc.Ring.{queue, quantity, IsRing}
use hft_fix_engine.Matching.ZeroAlloc.Texts.{text}

-- Text without a zero byte.
abbrev pub IsText : Bytes → Type 0
IsText = All (λ c. (c == 0) ≡ false)

strnlen_written :
    (n : ℕ) (src behind : Bytes) (max : ℕ)
    → IsText src
    → n ≤ length src
    → n ≤ max
    → strnlen (set (take n src ++ behind) n 0) max ≡ n
unfolding strnlen
strnlen_written zero src [] max h le few = refl
strnlen_written zero src (b ∷ bs) zero h le few = refl
strnlen_written zero src (b ∷ bs) (suc max) h le few = refl
strnlen_written (suc n) [] behind max h le few = absurd (omega arith)
strnlen_written (suc n) (c ∷ cs) behind zero h le few = absurd (omega arith)
strnlen_written (suc n) (c ∷ cs) behind (suc max) h le few =
    rw h.0 (ap suc (strnlen_written n cs behind max h.1 (omega arith) (omega arith)))

take_written :
    (n : ℕ) (src behind : Bytes)
    → n ≤ length src
    → take n (set (take n src ++ behind) n 0) ≡ take n src
take_written zero src behind le = refl
take_written (suc n) [] behind le = absurd (omega arith)
take_written (suc n) (c ∷ cs) behind le = ap (λ l. c ∷ l) (take_written n cs behind (omega arith))

take-min : (n : ℕ) (src : Bytes) → take (min (length src) n) src ≡ take n src
take-min zero src = ap (λ m. take m src) (let e : min (length src) 0 ≡ 0 = omega arith in e)
take-min (suc n) [] = ap (λ m. take m []) (let e : min 0 (suc n) ≡ 0 = omega arith in e)
take-min (suc n) (c ∷ cs) =
    ap (λ m. take m (c ∷ cs))
      (let e : min (suc (length cs)) (suc n) ≡ suc (min (length cs) n) = omega arith in e)
    ∙ ap (λ l. c ∷ l) (take-min n cs)

-- The text that is read back is what was written, cut to 31 bytes.
pub text-copy_sv_to_char :
    (dest src : Bytes)
    → IsText src
    → text (copy_sv_to_char dest src (max_cl_ord_id_len - 1)) ≡ take (max_cl_ord_id_len - 1) src
unfolding copy_sv_to_char
text-copy_sv_to_char dest src h =
    let n = min (length src) 31 in
    ap (λ m. take m (set (take n src ++ drop n dest) n 0))
      (strnlen_written n src (drop n dest) 31 h (omega arith) (omega arith))
    ∙ take_written n src (drop n dest) (omega arith)
    ∙ take-min 31 src

module _ (lvl : PriceLevel) (full : length lvl.orders ≡ max_orders_per_level)
    (head : lvl.head_order_idx < max_orders_per_level)
    (room : lvl.order_count < max_orders_per_level) (id : ℕ) (cl_ord_id : Bytes) (side price : ℤ)
    (qty ts : ℕ) where
  -- The place behind the last order, and the order that goes there.
  abbrev back : ℕ
  back = (lvl.head_order_idx + lvl.order_count) % max_orders_per_level

  abbrev pub newest : BookOrder
  newest = written (get_or lvl.orders back blank_order) id cl_ord_id side price qty ts

  abbrev pushed : PriceLevel
  pushed = record lvl {
    orders = set lvl.orders back newest;
    cached_total_qty = add_u32 lvl.cached_total_qty qty;
    order_count = lvl.order_count + 1;
  }

  push_back_order-pushed : push_back_order lvl id cl_ord_id side price qty ts ≡ pushed
  unfolding push_back_order
  push_back_order-pushed = rw (lt→ltb lvl.order_count max_orders_per_level room) refl

  queue-pushed : queue pushed ≡ queue lvl ++ (newest ∷ [])
  queue-pushed =
      let inside : back < 32 = omega arith in
      ap (window blank_order max_orders_per_level (set lvl.orders back newest) lvl.head_order_idx)
        (let e : lvl.order_count + 1 ≡ suc lvl.order_count = omega arith in e)
      ∙ window-snoc blank_order max_orders_per_level (set lvl.orders back newest) lvl.order_count
          lvl.head_order_idx back head inside (ground arith)
      ∙ ap₂ (λ q o. q ++ (o ∷ []))
          (window-set blank_order max_orders_per_level lvl.orders newest lvl.order_count
            lvl.head_order_idx back head inside (ground arith))
          (get_or-set_self lvl.orders back newest blank_order (omega (arith, full)))

  -- A ring with room takes the order at its back.
  pub queue-push_back_order :
      queue (push_back_order lvl id cl_ord_id side price qty ts) ≡ queue lvl ++ (newest ∷ [])
  queue-push_back_order = ap queue push_back_order-pushed ∙ queue-pushed

  pub order_count-push_back_order :
      (push_back_order lvl id cl_ord_id side price qty ts).order_count ≡ lvl.order_count + 1
  order_count-push_back_order = ap (λ (l : PriceLevel). l.order_count) push_back_order-pushed

  pub price-push_back_order : (push_back_order lvl id cl_ord_id side price qty ts).price ≡ lvl.price
  price-push_back_order = ap (λ (l : PriceLevel). l.price) push_back_order-pushed

  -- An order at the price of the level keeps the ring as it should be.
  pub push_back_order-IsRing :
      All (λ (o : BookOrder). o.price ≡ lvl.price) (queue lvl)
      → lvl.cached_total_qty ≡ sum (map quantity (queue lvl)) % 2 ^ 32
      → price ≡ lvl.price
      → IsRing (push_back_order lvl id cl_ord_id side price qty ts)
  push_back_order-IsRing priced totalled same =
      let total = sum-append (map quantity (queue lvl)) (qty ∷ []) in
      let kept : IsRing pushed = record {
        full_array = length-set lvl.orders back newest ∙ full;
        head_in = head;
        count_in = omega arith;
        priced = rw queue-pushed (
            All-append (λ (o : BookOrder). o.price ≡ lvl.price) (queue lvl) (newest ∷ []) priced
              (same, tt));
        totalled =
            rw (queue-pushed, map-append quantity (queue lvl) (newest ∷ []))
              (omega (arith, totalled, total));
      } in
      rw push_back_order-pushed kept
