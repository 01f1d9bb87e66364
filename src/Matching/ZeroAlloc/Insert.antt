-- ===== src/Matching/ZeroAlloc/Insert.antt =====
-- Rows of levels: an order that goes into a row goes to its place among the entries of the row.
use hft_fix_engine.Base.{
  ◌≡◌, refl, sym, ap, ◌∙◌, Bool, true, false, List, [], ◌∷◌, ◌++◌, append_assoc, map, All,
  All-append, All-map, arith, ℤ,
}
use hft_fix_engine.Matching.Book.{LimitOrderEntry, Side, buy, sell, comes_before, insert_sorted}
use hft_fix_engine.Matching.ZeroAlloc.Level.{BookOrder, PriceLevel}
use hft_fix_engine.Matching.ZeroAlloc.Side.{is_better}
use hft_fix_engine.Matching.ZeroAlloc.Ring.{queue, IsRing}
use hft_fix_engine.Matching.ZeroAlloc.Reports.{entry_of, entries}
use hft_fix_engine.Matching.ZeroAlloc.Pool.{IsLevel, IsStrict, Before, flatten, price_of}

insert_sorted_split :
    (own : Side) (e : LimitOrderEntry) (xs ys : List LimitOrderEntry)
    → All (λ x. comes_before own e x ≡ false) xs
    → All (λ y. comes_before own e y ≡ true) ys
    → insert_sorted own e (xs ++ ys) ≡ xs ++ (e ∷ ys)
unfolding insert_sorted
insert_sorted_split own e [] [] h k = refl
insert_sorted_split own e [] (y ∷ ys) h k = rw k.0 refl
insert_sorted_split own e (x ∷ xs) ys h k =
    rw h.0 (ap (λ l. x ∷ l) (insert_sorted_split own e xs ys h.1 k))

flatten-append : (ls ks : List PriceLevel) → flatten (ls ++ ks) ≡ flatten ls ++ flatten ks
flatten-append [] ks = refl
flatten-append (a ∷ ls) ks =
    ap (λ l. entries a ++ l) (flatten-append ls ks)
    ∙ sym (append_assoc (entries a) (flatten ls) (flatten ks))

comes_before-is_better :
    (own : Side) (e x : LimitOrderEntry) → comes_before own e x ≡ is_better own e.price x.price
comes_before-is_better buy e x = refl
comes_before-is_better sell e x = refl

entries_at :
    (own : Side) (e : LimitOrderEntry) (price : ℤ) (test : Bool) (os : List BookOrder)
    → is_better own e.price price ≡ test
    → All (λ (o : BookOrder). o.price ≡ price) os
    → All (λ x. comes_before own e x ≡ test) (map entry_of os)
entries_at own e price test [] h priced = tt
entries_at own e price test (o ∷ os) h priced = (
  comes_before-is_better own e (entry_of o) ∙ ap (is_better own e.price) priced.0 ∙ h,
  entries_at own e price test os h priced.1,
)

-- The levels that a price goes in front of (`true`) or behind (`false`).
abbrev Judged : Side → ℤ → Bool → PriceLevel → Type 0
Judged own price test lvl = is_better own price lvl.price ≡ test

flatten_at :
    (own : Side) (e : LimitOrderEntry) (test : Bool) (ls : List PriceLevel)
    → All IsLevel ls
    → All (Judged own e.price test) ls
    → All (λ x. comes_before own e x ≡ test) (flatten ls)
flatten_at own e test [] good h = tt
flatten_at own e test (l ∷ ls) good h =
    All-append (λ x. comes_before own e x ≡ test) (entries l) (flatten ls)
      (entries_at own e l.price test (queue l) h.0 good.0.ring.priced)
      (flatten_at own e test ls good.1 h.1)

abbrev pub IsAhead : Side → ℤ → PriceLevel → Type 0
IsAhead own price lvl = Before own lvl.price price

abbrev pub IsAfter : Side → ℤ → PriceLevel → Type 0
IsAfter own price lvl = Before own price lvl.price

ahead→Judged :
    (own : Side) (price : ℤ) (lvl : PriceLevel) → IsAhead own price lvl → Judged own price false lvl
ahead→Judged buy price lvl h = ground arith
ahead→Judged sell price lvl h = ground arith

after→Judged :
    (own : Side) (price : ℤ) (lvl : PriceLevel) → IsAfter own price lvl → Judged own price true lvl
after→Judged buy price lvl h = ground arith
after→Judged sell price lvl h = ground arith

same_judged : (own : Side) (price here : ℤ) → here ≡ price → is_better own price here ≡ false
same_judged buy price here h = ground arith
same_judged sell price here h = ground arith

module _ (own : Side) (e : LimitOrderEntry) (ls ks : List PriceLevel) (good_ls : All IsLevel ls)
    (good_ks : All IsLevel ks) (ahead : All (IsAhead own e.price) ls)
    (after : All (IsAfter own e.price) ks) where
  in_front : All (λ x. comes_before own e x ≡ false) (flatten ls)
  in_front =
      flatten_at own e false ls good_ls (
        All-map (IsAhead own e.price) (Judged own e.price false) ls (ahead→Judged own e.price)
          ahead)

  behind_it : All (λ x. comes_before own e x ≡ true) (flatten ks)
  behind_it =
      flatten_at own e true ks good_ks (
        All-map (IsAfter own e.price) (Judged own e.price true) ks (after→Judged own e.price) after)

  -- A new level that holds the one order.
  pub insert_sorted_between :
      (l : PriceLevel)
      → entries l ≡ e ∷ []
      → insert_sorted own e (flatten (ls ++ ks)) ≡ flatten (ls ++ (l ∷ ks))
  insert_sorted_between l only =
      ap (insert_sorted own e) (flatten-append ls ks)
      ∙ insert_sorted_split own e (flatten ls) (flatten ks) in_front behind_it
      ∙ ap (λ es. flatten ls ++ (es ++ flatten ks)) (sym only)
      ∙ sym (flatten-append ls (l ∷ ks))

  -- The level at the price, which takes the order at its back.
  pub insert_sorted_at :
      (l l' : PriceLevel)
      → IsRing l
      → l.price ≡ e.price
      → entries l' ≡ entries l ++ (e ∷ [])
      → insert_sorted own e (flatten (ls ++ (l ∷ ks))) ≡ flatten (ls ++ (l' ∷ ks))
  insert_sorted_at l l' ring same more =
      let front = flatten ls ++ entries l in
      let at_price =
        entries_at own e l.price false (queue l) (same_judged own e.price l.price same)
          ring.priced in
      ap (insert_sorted own e)
        (flatten-append ls (l ∷ ks) ∙ sym (append_assoc (flatten ls) (entries l) (flatten ks)))
      ∙ insert_sorted_split own e front (flatten ks)
          (All-append (λ x. comes_before own e x ≡ false) (flatten ls) (entries l) in_front
            at_price)
          behind_it
      ∙ append_assoc (flatten ls) (entries l) (e ∷ flatten ks)
      ∙ ap (λ es. flatten ls ++ es)
          (sym (append_assoc (entries l) (e ∷ []) (flatten ks))
            ∙ ap (λ es. es ++ flatten ks) (sym more))
      ∙ sym (flatten-append ls (l' ∷ ks))

All_priced :
    (P : ℤ → Type 0) (ls : List PriceLevel)
    → All (λ (l : PriceLevel). P l.price) ls
    → All P (map price_of ls)
All_priced P [] h = tt
All_priced P (l ∷ ls) h = (h.0, All_priced P ls h.1)

All_unpriced :
    (P : ℤ → Type 0) (ls : List PriceLevel)
    → All P (map price_of ls)
    → All (λ (l : PriceLevel). P l.price) ls
All_unpriced P [] h = tt
All_unpriced P (l ∷ ls) h = (h.0, All_unpriced P ls h.1)

All_between :
    (P : ℤ → Type 0) (ls ks : List PriceLevel) (l : PriceLevel)
    → P l.price
    → All P (map price_of (ls ++ ks))
    → All P (map price_of (ls ++ (l ∷ ks)))
All_between P [] ks l p h = (p, h)
All_between P (a ∷ ls) ks l p h = (h.0, All_between P ls ks l p h.1)

All_last :
    (P : ℤ → Type 0) (ls ks : List PriceLevel) (l : PriceLevel)
    → All P (map price_of (ls ++ (l ∷ ks)))
    → P l.price
All_last P [] ks l h = h.0
All_last P (a ∷ ls) ks l h = All_last P ls ks l h.1

-- The levels on both sides of one in a row in order.
pub ordered_split :
    (own : Side) (ls ks : List PriceLevel) (l : PriceLevel)
    → IsStrict own (map price_of (ls ++ (l ∷ ks)))
    → All (IsAhead own l.price) ls × All (IsAfter own l.price) ks
ordered_split own [] ks l h = (tt, All_unpriced (Before own l.price) ks h.0)
ordered_split own (a ∷ ls) ks l h =
    let (ahead, after) = ordered_split own ls ks l h.1 in
    ((All_last (Before own a.price) ls ks l h.0, ahead), after)

pub ordered_between :
    (own : Side) (ls ks : List PriceLevel) (l : PriceLevel)
    → IsStrict own (map price_of (ls ++ ks))
    → All (IsAhead own l.price) ls
    → All (IsAfter own l.price) ks
    → IsStrict own (map price_of (ls ++ (l ∷ ks)))
ordered_between own [] ks l h ahead after = (All_priced (Before own l.price) ks after, h)
ordered_between own (a ∷ ls) ks l h ahead after = (
  All_between (Before own a.price) ls ks l ahead.0 h.0,
  ordered_between own ls ks l h.1 ahead.1 after,
)
