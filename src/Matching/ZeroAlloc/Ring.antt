-- ===== src/Matching/ZeroAlloc/Ring.antt =====
-- The ring of orders at one price as a first-in first-out list.
use hft_fix_engine.Base.{
  ℕ, zero, suc, ◌+◌, ◌-◌, ◌%◌, ◌^◌, ◌<◌, ◌≤◌, ◌≡◌, refl, subst, ap, ap₂, ◌∙◌, false, List, ◌∷◌, map,
  length, set, All, sum, length-set, get_or-set_self, ◌==◌, if◌then◌else◌, arith,
}
use hft_fix_engine.Common.SpscQueue.Window.{window, next, window-set}
use hft_fix_engine.Matching.ZeroAlloc.Level.{
  BookOrder, PriceLevel, blank_order, max_orders_per_level, front_order, take_from_front,
  pop_front_order,
}

-- The waiting orders, the oldest first.
abbrev pub queue : PriceLevel → List BookOrder
queue lvl = window blank_order max_orders_per_level lvl.orders lvl.head_order_idx lvl.order_count

-- Those behind the oldest of `suc n`.
abbrev pub behind : PriceLevel → ℕ → List BookOrder
behind lvl n =
    window blank_order max_orders_per_level lvl.orders
      (next max_orders_per_level lvl.head_order_idx) n

abbrev pub quantity : BookOrder → ℕ
quantity o = o.remaining_qty

-- A ring within its bounds, whose orders all have the price of the level, and whose total is theirs.
pub record IsRing (lvl : PriceLevel) : Type 0 where
  pub full_array : length lvl.orders ≡ max_orders_per_level
  pub head_in : lvl.head_order_idx < max_orders_per_level
  pub count_in : lvl.order_count ≤ max_orders_per_level
  pub priced : All (λ (o : BookOrder). o.price ≡ lvl.price) (queue lvl)
  pub totalled : lvl.cached_total_qty ≡ sum (map quantity (queue lvl)) % 2 ^ 32

abbrev pub hit : BookOrder → ℕ → BookOrder
hit o qty = record o { remaining_qty = o.remaining_qty - qty }

module _ (lvl : PriceLevel) (ring : IsRing lvl) (n : ℕ) (count : lvl.order_count ≡ suc n) where
  pub queue-front_order : queue lvl ≡ front_order lvl ∷ behind lvl n
  unfolding front_order
  queue-front_order =
      ap (window blank_order max_orders_per_level lvl.orders lvl.head_order_idx) count

  -- A write to the oldest order leaves the others alone.
  behind-set :
      (v : BookOrder) (m : ℕ)
      → m ≤ n
      → window blank_order max_orders_per_level
          (set lvl.orders lvl.head_order_idx v)
          (next max_orders_per_level lvl.head_order_idx)
          m
        ≡ behind lvl m
  behind-set v m le =
      let inside : lvl.head_order_idx < 32 = ring.head_in in
      let few : lvl.order_count ≤ 32 = ring.count_in in
      window-set blank_order max_orders_per_level lvl.orders v m
        (next max_orders_per_level lvl.head_order_idx) lvl.head_order_idx (ground arith)
        ring.head_in (ground arith)

  pub queue-take_from_front :
      (qty : ℕ) → queue (take_from_front lvl qty) ≡ hit (front_order lvl) qty ∷ behind lvl n
  unfolding take_from_front front_order
  queue-take_from_front qty =
      let v = hit (front_order lvl) qty in
      ap
        (window blank_order max_orders_per_level (set lvl.orders lvl.head_order_idx v)
          lvl.head_order_idx)
        count
      ∙ ap₂ ◌∷◌
          (get_or-set_self lvl.orders lvl.head_order_idx v blank_order
            (omega (arith, ring.full_array, ring.head_in)))
          (behind-set v n (omega arith))

-- Past the last order the head goes back to 0, where no order is read.
window_moved :
    (lvl : PriceLevel) (n : ℕ)
    → lvl.head_order_idx < max_orders_per_level
    → window blank_order max_orders_per_level lvl.orders
        (if n == 0 then 0 else (lvl.head_order_idx + 1) % max_orders_per_level)
        n
      ≡ behind lvl n
window_moved lvl zero h = refl
window_moved lvl (suc n) h =
    ap (λ i. window blank_order max_orders_per_level lvl.orders i (suc n))
      (let e : (if suc n == 0 then 0 else (lvl.head_order_idx + 1) % max_orders_per_level)
            ≡ next max_orders_per_level lvl.head_order_idx =
          ground arith in
        e)

-- A level without its oldest of `suc n` orders.
abbrev popped : PriceLevel → ℕ → PriceLevel
popped lvl n = record lvl {
  head_order_idx = if n == 0 then 0 else (lvl.head_order_idx + 1) % max_orders_per_level;
  order_count = n;
}

pop_front_order-popped :
    (lvl : PriceLevel) (n : ℕ) → lvl.order_count ≡ suc n → pop_front_order lvl ≡ popped lvl n
unfolding pop_front_order
pop_front_order-popped lvl n count =
    let some_left : (lvl.order_count == 0) ≡ false = ground arith in
    rw some_left (ap (popped lvl) (let e : lvl.order_count - 1 ≡ n = omega arith in e))

pub queue-pop_front_order :
    (lvl : PriceLevel) (n : ℕ)
    → lvl.head_order_idx < max_orders_per_level
    → lvl.order_count ≡ suc n
    → queue (pop_front_order lvl) ≡ behind lvl n
queue-pop_front_order lvl n h count =
    ap queue (pop_front_order-popped lvl n count) ∙ window_moved lvl n h

module _ (lvl : PriceLevel) (ring : IsRing lvl) (n : ℕ) (count : lvl.order_count ≡ suc n) where
  -- Taking from the oldest order takes the same from the total.
  pub take_from_front-IsRing :
      (qty : ℕ)
      → qty < 2 ^ 32
      → qty ≤ (front_order lvl).remaining_qty
      → IsRing (take_from_front lvl qty)
  unfolding take_from_front front_order
  take_from_front-IsRing qty word le =
      let now = queue-take_from_front lvl ring n count qty in
      let before = queue-front_order lvl ring n count in
      let prices = subst (All (λ (o : BookOrder). o.price ≡ lvl.price)) before ring.priced in
      record {
        full_array =
            length-set lvl.orders lvl.head_order_idx (hit (front_order lvl) qty) ∙ ring.full_array;
        head_in = ring.head_in;
        count_in = ring.count_in;
        priced = rw now prices;
        totalled =
            rw now omega (arith, ring.totalled ∙ ap (λ q. sum (map quantity q) % 2 ^ 32) before);
      }

  pub pop_front_order-IsRing : (front_order lvl).remaining_qty ≡ 0 → IsRing (pop_front_order lvl)
  pop_front_order-IsRing empty =
      let inside : lvl.head_order_idx < 32 = ring.head_in in
      let few : lvl.order_count ≤ 32 = ring.count_in in
      let before = queue-front_order lvl ring n count in
      let prices = subst (All (λ (o : BookOrder). o.price ≡ lvl.price)) before ring.priced in
      let total = ring.totalled ∙ ap (λ q. sum (map quantity q) % 2 ^ 32) before in
      let kept : IsRing (popped lvl n) = record {
        full_array = ring.full_array;
        head_in = ground arith;
        count_in = omega arith;
        priced = rw (window_moved lvl n ring.head_in) prices.1;
        totalled = rw (window_moved lvl n ring.head_in) (omega (arith, total, empty));
      } in
      rw (pop_front_order-popped lvl n count) kept

-- An order matched whole is taken from and leaves the ring.
abbrev pub consumed : PriceLevel → ℕ → PriceLevel
consumed lvl qty = pop_front_order (take_from_front lvl qty)

module _ (lvl : PriceLevel) (ring : IsRing lvl) (n : ℕ) (count : lvl.order_count ≡ suc n) where
  pub queue-consumed : (qty : ℕ) → queue (consumed lvl qty) ≡ behind lvl n
  unfolding take_from_front front_order
  queue-consumed qty =
      queue-pop_front_order (take_from_front lvl qty) n ring.head_in count
      ∙ behind-set lvl ring n count (hit (front_order lvl) qty) n (omega arith)

  pub order_count-consumed : (qty : ℕ) → (consumed lvl qty).order_count ≡ n
  unfolding take_from_front
  order_count-consumed qty =
      ap (λ (l : PriceLevel). l.order_count)
        (pop_front_order-popped (take_from_front lvl qty) n count)

  pub price-consumed : (qty : ℕ) → (consumed lvl qty).price ≡ lvl.price
  unfolding take_from_front
  price-consumed qty =
      ap (λ (l : PriceLevel). l.price) (pop_front_order-popped (take_from_front lvl qty) n count)

  pub consumed-IsRing :
      (front_order lvl).remaining_qty < 2 ^ 32
      → IsRing (consumed lvl (front_order lvl).remaining_qty)
  unfolding take_from_front front_order
  consumed-IsRing word =
      let qty = (front_order lvl).remaining_qty in
      let front : front_order (take_from_front lvl qty) ≡ hit (front_order lvl) qty =
        get_or-set_self lvl.orders lvl.head_order_idx (hit (front_order lvl) qty) blank_order
          (omega (arith, ring.full_array, ring.head_in)) in
      pop_front_order-IsRing (take_from_front lvl qty)
        (take_from_front-IsRing lvl ring n count qty word (omega arith)) n count
        (ap quantity front ∙ (let e : qty - qty ≡ 0 = omega arith in e))
