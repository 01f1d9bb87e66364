-- ===== src/Matching/ZeroAlloc/Find.antt =====
-- The binary search over the levels of a side.
use hft_fix_engine.Base.{
  ℕ, zero, suc, ◌+◌, ◌-◌, ◌/◌, ◌<◌, ◌≤◌, ◌≡◌, refl, sym, subst, ap, ◌∙◌, inl, inr, Bool-cases, true,
  false, List, [], ◌∷◌, Option, none, some, map, length, get_or, take, All, ltb, ltb→lt, ltb→ge,
  arith, ℤ, pos, eqb_ℤ, eqb_ℤ→eq, loop, loop_inv, loop_exit,
}
use hft_fix_engine.Matching.Book.{Side, buy, sell}
use hft_fix_engine.Matching.ZeroAlloc.Side.{
  BookSide, level_at, Search, is_better, price_at, search_between, search_round, search_levels,
}
use hft_fix_engine.Matching.ZeroAlloc.Pool.{IsSide, IsStrict, Before, rows, price_of, levels_at}

All_at {ℓ κ} :
    {A : Type ℓ} (P : A → Type κ) (xs : List A) (i : ℕ) (d : A)
    → All P xs
    → i < length xs
    → P (get_or xs i d)
All_at P [] i d h lt = absurd (omega arith)
All_at P (x ∷ xs) zero d h lt = h.0
All_at P (x ∷ xs) (suc i) d h lt = All_at P xs i d h.1 (omega arith)

Before_at :
    (own : Side) (xs : List ℤ) (i j : ℕ)
    → IsStrict own xs
    → i < j
    → j < length xs
    → Before own (get_or xs i (pos 0)) (get_or xs j (pos 0))
Before_at own [] i j h lt le = absurd (omega arith)
Before_at own (x ∷ xs) i zero h lt le = absurd (omega arith)
Before_at own (x ∷ xs) zero (suc j) h lt le = All_at (Before own x) xs j (pos 0) h.0 (omega arith)
Before_at own (x ∷ xs) (suc i) (suc j) h lt le =
    Before_at own xs i j h.1 (omega arith) (omega arith)

price_at_row :
    (s : BookSide) (ps : List ℕ) (n i : ℕ)
    → i < n
    → n ≤ length ps
    → get_or (map price_of (levels_at s (take n ps))) i (pos 0) ≡ (level_at s (get_or ps i 0)).price
price_at_row s [] n i lt le = absurd (omega arith)
price_at_row s (p ∷ ps) zero i lt le = absurd (omega arith)
price_at_row s (p ∷ ps) (suc n) zero lt le = refl
price_at_row s (p ∷ ps) (suc n) (suc i) lt le = price_at_row s ps n i (omega arith) (omega arith)

length_row :
    (s : BookSide) (ps : List ℕ) (n : ℕ)
    → n ≤ length ps
    → length (map price_of (levels_at s (take n ps))) ≡ n
length_row s ps zero le = refl
length_row s [] (suc n) le = absurd (omega arith)
length_row s (p ∷ ps) (suc n) le = ap suc (length_row s ps n (omega arith))

Before_trans : (own : Side) (x y z : ℤ) → Before own x y → Before own y z → Before own x z
Before_trans buy x y z h k = omega arith
Before_trans sell x y z h k = omega arith

better→Before :
    (own : Side) (price here : ℤ) → is_better own price here ≡ true → Before own price here
better→Before buy price here h = ground arith
better→Before sell price here h = ground arith

worse→Before :
    (own : Side) (price here : ℤ)
    → is_better own price here ≡ false
    → eqb_ℤ here price ≡ false
    → Before own here price
worse→Before buy price here h e = ground arith
worse→Before sell price here h e = ground arith

module _ (own : Side) (s : BookSide) (side : IsSide own s) (price : ℤ) where
  pub rising : (i j : ℕ) → i < j → j < s.level_count → Before own (price_at s i) (price_at s j)
  rising i j lt le =
      let used = side.all_used in
      let fits : s.level_count ≤ length s.levels = omega (arith, side.levels_full) in
      rw
        (
          sym (price_at_row s s.levels s.level_count i (omega arith) fits),
          sym (price_at_row s s.levels s.level_count j le fits),
        )
        (Before_at own (map price_of (rows s)) i j side.strict lt
          (omega (arith, length_row s s.levels s.level_count fits)))

  -- A position that is found holds the price.
  abbrev pub IsHit : Option ℕ → Type 0
  IsHit none = Unit
  IsHit (some mid) = (mid < s.level_count) × (price_at s mid ≡ price)

  -- Every level in front of the bounds is better than the price, every one behind them worse.
  pub record Bounded (r : Search) : Type 0 where
    pub ordered : r.low ≤ r.high
    pub inside : r.high ≤ s.level_count
    pub lower : (i : ℕ) → i < r.low → Before own (price_at s i) price
    pub upper : (i : ℕ) → r.high ≤ i → i < s.level_count → Before own price (price_at s i)
    pub is_hit : IsHit r.found

  abbrev measure : Search → ℕ
  measure r = elim r.found [ none ↦ suc (r.high - r.low) | some mid ↦ 0 ]

  abbrev round : Search → Option Search
  round = search_round own s price

  lower_half :
      (r : Search) (mid : ℕ)
      → Bounded r
      → r.low ≤ mid
      → mid < r.high
      → Before own price (price_at s mid)
      → Bounded (record { low = r.low; high = mid; found = none })
  lower_half r mid b le lt here =
      let inside = b.inside in
      record {
        ordered = le;
        inside = omega arith;
        lower = b.lower;
        upper = λ i above in_use. elim (Bool-cases (ltb mid i)) [
          | inl e ↦
              Before_trans own price (price_at s mid) (price_at s i) here
                (rising mid i (ltb→lt mid i e) in_use)
          | inr e ↦
              let same : mid ≡ i = omega (arith, ltb→ge mid i e) in
              subst (λ j. Before own price (price_at s j)) same here
        ];
        is_hit = tt;
      }

  upper_half :
      (r : Search) (mid : ℕ)
      → Bounded r
      → r.low ≤ mid
      → mid < r.high
      → Before own (price_at s mid) price
      → Bounded (record { low = mid + 1; high = r.high; found = none })
  upper_half r mid b le lt here =
      let inside = b.inside in
      record {
        ordered = omega arith;
        inside = inside;
        lower = λ i below. elim (Bool-cases (ltb i mid)) [
          | inl e ↦
              Before_trans own (price_at s i) (price_at s mid) price
                (rising i mid (ltb→lt i mid e) (omega arith)) here
          | inr e ↦
              let same : mid ≡ i = omega (arith, ltb→ge i mid e) in
              subst (λ j. Before own (price_at s j) price) same here
        ];
        upper = b.upper;
        is_hit = tt;
      }

  between-Bounded :
      (low high : ℕ)
      → Bounded (record { low = low; high = high; found = none })
      → low < high
      → Bounded (search_between own s price low high)
        × (measure (search_between own s price low high) < suc (high - low))
  between-Bounded low high b lt =
      let mid = low + (high - low) / 2 in
      let inside = b.inside in
      let r : Search = record { low = low; high = high; found = none } in
      elim (Bool-cases (eqb_ℤ (price_at s mid) price)) [
        | inl e ↦
            let hit : Search = record { low = low; high = high; found = some mid } in
            let ok : Bounded hit = record {
              ordered = b.ordered;
              inside = b.inside;
              lower = b.lower;
              upper = b.upper;
              is_hit = (omega arith, eqb_ℤ→eq (price_at s mid) price e);
            } in
            rw e (ok, omega arith)
        | inr e ↦ elim (Bool-cases (is_better own price (price_at s mid))) [
          | inl better ↦
              rw (e, better)
                (
                  lower_half r mid b (omega arith) (omega arith)
                      (better→Before own price (price_at s mid) better),
                  omega arith,
                )
          | inr worse ↦
              rw (e, worse)
                (
                  upper_half r mid b (omega arith) (omega arith)
                      (worse→Before own price (price_at s mid) worse e),
                  omega arith,
                )
        ]
      ]

  step_at :
      (low high : ℕ) (found : Option ℕ) (t : Search)
      → Bounded (record { low = low; high = high; found = found })
      → round (record { low = low; high = high; found = found }) ≡ some t
      → Bounded t × (measure t < measure (record { low = low; high = high; found = found }))
  unfolding search_round
  step_at low high (some mid) t b e = absurd (let conflict : none ≡ some t = e in cc)
  step_at low high none t b e = elim (Bool-cases (ltb low high)) [
    | inl lt ↦
        let went : some (search_between own s price low high) ≡ some t = sym (rw lt refl) ∙ e in
        let same : search_between own s price low high ≡ t = cc in
        subst (λ z. Bounded z × (measure z < suc (high - low))) same
          (between-Bounded low high b (ltb→lt low high lt))
    | inr ge ↦ absurd (let conflict : none ≡ some t = sym (rw ge refl) ∙ e in cc)
  ]

  start_search : Search
  start_search = record { low = 0; high = s.level_count; found = none }

  start-Bounded : Bounded start_search
  unfolding start_search
  start-Bounded = record {
    ordered = omega arith;
    inside = omega arith;
    lower = λ i below. absurd (omega arith);
    upper = λ i above in_use. absurd (omega arith);
    is_hit = tt;
  }

  -- The end of the search: at the price, or between the better and the worse levels.
  abbrev pub IsEnd : Search → Type 0
  IsEnd r = elim r.found [ none ↦ r.low ≡ r.high | some mid ↦ Unit ]

  stopped :
      (low high : ℕ) (found : Option ℕ)
      → low ≤ high
      → round (record { low = low; high = high; found = found }) ≡ none
      → IsEnd (record { low = low; high = high; found = found })
  unfolding search_round
  stopped low high (some mid) le e = tt
  stopped low high none le e = elim (Bool-cases (ltb low high)) [
    | inl lt ↦ absurd (
        let conflict : some (search_between own s price low high) ≡ none = sym (rw lt refl) ∙ e in
        cc)
    | inr ge ↦ omega (arith, ltb→ge low high ge)
  ]

  -- On a side as it should be the search finds the level at the price, if there is one, or else ends
  -- at the position in front of which every level is better and from which on every level is worse.
  pub search_levels-Bounded :
      Bounded (search_levels own s price) × IsEnd (search_levels own s price)
  unfolding search_levels start_search
  search_levels-Bounded =
      let step = λ (r t : Search) (b : Bounded r) (e : round r ≡ some t).
        step_at r.low r.high r.found t b e in
      let fuel = s.level_count + 2 in
      let kept =
        loop_inv Bounded round (λ r t b e. (step r t b e).0) fuel start_search start-Bounded in
      let final = loop fuel round start_search in
      (
        kept,
        stopped final.low final.high final.found kept.ordered
            (loop_exit Bounded measure round step fuel start_search start-Bounded (omega arith)),
      )
