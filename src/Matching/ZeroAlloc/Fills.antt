-- ===== src/Matching/ZeroAlloc/Fills.antt =====
-- What a match on the arrays amounts to, told in the fills of the reference match.
use hft_fix_engine.Base.{
  ℕ, ◌-◌, ◌<◌, ◌≤◌, ◌≡◌, refl, ap, inl, inr, Bool-cases, true, false, List, [], ◌∷◌, ◌++◌, map, All,
  ltb, ◌==◌, Bytes, arith, ℤ, lt→ltb, ge→ltb, ltb→lt, ltb→ge, ==→eq,
}
use hft_fix_engine.Protocol.ParsedOrder.{ParsedOrder}
use hft_fix_engine.Matching.Book.{LimitOrderEntry, Side, beyond}
use hft_fix_engine.Matching.Book.Spec.{Filled, fill, fill_qty, ones, tally}
use hft_fix_engine.Matching.ZeroAlloc.Book.{Output}
use hft_fix_engine.Matching.ZeroAlloc.Reports.{write_fills, write_fills-nil}

-- What can be seen of a match: the passive entries, the quantity left, the reports and the counters.
pub record Seen : Type 0 where
  pub book : List LimitOrderEntry
  pub remaining_qty : ℕ
  pub output : Output
  pub total_trades : ℕ
  pub total_volume : ℕ

module _ (side : Side) (symbol : Bytes) (order : ParsedOrder) (max_trades timestamp_ns : ℕ) where
  -- The same of the reference match.
  abbrev pub settled : Output → ℕ → ℕ → Filled → Seen
  settled o trades volume f = record {
    book = f.book;
    remaining_qty = f.left;
    output = write_fills side symbol order max_trades timestamp_ns o f.fills;
    total_trades = tally trades (ones f.fills);
    total_volume = tally volume (map fill_qty f.fills);
  }

module _ (side : Side) (symbol : Bytes) (order : ParsedOrder) (max_trades timestamp_ns : ℕ) where
  pub settled-nil :
      (o : Output) (trades volume left : ℕ) (book : List LimitOrderEntry)
      → settled side symbol order max_trades timestamp_ns o trades volume
          (record { fills = []; book = book; left = left })
        ≡ record {
          book = book;
          remaining_qty = left;
          output = o;
          total_trades = trades;
          total_volume = volume;
        }
  unfolding tally
  settled-nil o trades volume left book =
      ap
        (λ p.
          let z : Seen = record {
            book = book;
            remaining_qty = left;
            output = p;
            total_trades = trades;
            total_volume = volume;
          } in
          z)
        (write_fills-nil side symbol order max_trades timestamp_ns o)

pub fill_zero :
    (side : Side) (price : ℤ) (qty : ℕ) (xs : List LimitOrderEntry)
    → qty ≡ 0
    → fill side price qty xs ≡ record { fills = []; book = xs; left = qty }
unfolding fill
fill_zero side price qty [] e = refl
fill_zero side price qty (x ∷ xs) e =
    let none_left : (qty == 0) ≡ true = ground arith in rw none_left refl

pub fill-nil :
    (side : Side) (price : ℤ) (qty : ℕ)
    → fill side price qty [] ≡ record { fills = []; book = []; left = qty }
unfolding fill
fill-nil side price qty = refl

abbrev pub joined : Filled → Filled → Filled
joined f g = record { fills = f.fills ++ g.fills; book = f.book ++ g.book; left = g.left }

abbrev pub IsWithin : Side → ℤ → LimitOrderEntry → Type 0
IsWithin side price x = beyond side price x.price ≡ false

module _ (side : Side) (price : ℤ) (qty : ℕ) (x : LimitOrderEntry) (xs : List LimitOrderEntry)
    (open_qty : (qty == 0) ≡ false) (within : IsWithin side price x) where
  pub fill-partly :
      qty < x.remaining_qty
      → fill side price qty (x ∷ xs) ≡ record {
        fills = record { entry = x; qty = qty } ∷ [];
        book = record x { remaining_qty = x.remaining_qty - qty } ∷ xs;
        left = 0;
      }
  unfolding fill
  fill-partly lt = rw (open_qty, within, lt→ltb qty x.remaining_qty lt) refl

  pub fill-wholly :
      x.remaining_qty ≤ qty
      → fill side price qty (x ∷ xs)
        ≡ joined
            (record {
              fills = record { entry = x; qty = x.remaining_qty } ∷ [];
              book = [];
              left = 0;
            })
            (fill side price (qty - x.remaining_qty) xs)
  unfolding fill
  fill-wholly le = rw (open_qty, within, ge→ltb qty x.remaining_qty le) refl

-- A match on a row that is within the limit goes on with what the row leaves.
pub fill-append :
    (side : Side) (price : ℤ) (qty : ℕ) (xs ys : List LimitOrderEntry)
    → All (IsWithin side price) xs
    → fill side price qty (xs ++ ys)
      ≡ joined (fill side price qty xs) (fill side price (fill side price qty xs).left ys)
fill-append side price qty [] ys w = rw (fill-nil side price qty) refl
fill-append side price qty (x ∷ xs) ys w = elim (Bool-cases (qty == 0)) [
  | inl e ↦
      let none_left = ==→eq qty 0 e in
      rw
        (
          fill_zero side price qty (x ∷ (xs ++ ys)) none_left,
          fill_zero side price qty (x ∷ xs) none_left,
          fill_zero side price qty ys none_left,
        )
        refl
  | inr e ↦ elim (Bool-cases (ltb qty x.remaining_qty)) [
    | inl lt ↦
        let less = ltb→lt qty x.remaining_qty lt in
        rw
          (
            fill-partly side price qty x (xs ++ ys) e w.0 less,
            fill-partly side price qty x xs e w.0 less,
            fill_zero side price 0 ys refl,
          )
          refl
    | inr ge ↦
        let most = ltb→ge qty x.remaining_qty ge in
        rw
          (
            fill-wholly side price qty x (xs ++ ys) e w.0 most,
            fill-wholly side price qty x xs e w.0 most,
          )
          (ap
            (joined (record {
              fills = record { entry = x; qty = x.remaining_qty } ∷ [];
              book = [];
              left = 0;
            }))
            (fill-append side price (qty - x.remaining_qty) xs ys w.1))
  ]
]
