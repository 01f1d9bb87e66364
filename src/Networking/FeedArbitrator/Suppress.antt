-- ===== src/Networking/FeedArbitrator/Suppress.antt =====
-- What is suppressed, for how long, and what the counters count.
use hft_fix_engine.Base.{
  ℕ, ◌+◌, ◌<◌, ◌%◌, ◌≡◌, ◌≢◌, ◌^◌, subst, ap, sym, ◌∙◌, inl, inr, ◌⊎◌, true, false, List, [], ◌∷◌,
  All, length, length-set, length-replicate, get_or, get_or-set_self, get_or-set_ne, ==→ne, add_u64,
  arith, bit_and_mask, two-pow-pos,
}
use native.Mathlib.Nat.{mod-lt}
use hft_fix_engine.Networking.FeedArbitrator.{
  FeedLine, line_a, line_b, ArbitrationResult, FeedArbitrator, new_arbitrator, window_index,
  process_packet, process_all,
}

module _ (k : ℕ) where
  window_index-lt : (s : ℕ) → window_index k s < 2 ^ k
  unfolding window_index
  window_index-lt s = omega (arith, bit_and_mask s k, mod-lt s (two-pow-pos k))

  -- Both arrays have a place for each slot, and the counters are in range and add up.
  pub record IsValid (f : FeedArbitrator) : Type 0 where
    pub seen_size : length f.seen_sequences ≡ 2 ^ k
    pub winner_size : length f.winner_lines ≡ 2 ^ k
    pub unique_in : f.unique_processed < 2 ^ 64
    pub duplicates_in : f.duplicates_suppressed < 2 ^ 64
    pub a_in : f.line_a_wins < 2 ^ 64
    pub b_in : f.line_b_wins < 2 ^ 64
    pub wins : add_u64 f.line_a_wins f.line_b_wins ≡ f.unique_processed

  pub new_arbitrator-IsValid : IsValid (new_arbitrator k)
  unfolding new_arbitrator
  new_arbitrator-IsValid = record {
    seen_size = length-replicate (2 ^ k) 0;
    winner_size = length-replicate (2 ^ k) line_a;
    unique_in = omega arith;
    duplicates_in = omega arith;
    a_in = omega arith;
    b_in = omega arith;
    wins = omega arith;
  }

  -- A packet keeps a valid arbitrator valid: every slot has its place in both arrays, the counters
  -- are in range, and the wins of the two lines add up to the numbers accepted.
  pub process_packet-IsValid :
      (f : FeedArbitrator) (line : FeedLine) (s : ℕ)
      → IsValid f
      → IsValid (process_packet k f line s).1
  unfolding process_packet
  process_packet-IsValid f line_a s v = ground (
    arith,
    length-set f.seen_sequences (window_index k s) s,
    length-set f.winner_lines (window_index k s) line_a,
  )
  process_packet-IsValid f line_b s v = ground (
    arith,
    length-set f.seen_sequences (window_index k s) s,
    length-set f.winner_lines (window_index k s) line_b,
  )

  -- The number `s` was won by `line`, and still stands in its slot.
  pub record Won (f : FeedArbitrator) (line : FeedLine) (s : ℕ) : Type 0 where
    pub seen : get_or f.seen_sequences (window_index k s) 0 ≡ s
    pub winner : get_or f.winner_lines (window_index k s) line_a ≡ line

  -- A packet is the same number again, or one with another slot.
  abbrev pub Apart : ℕ → FeedLine × ℕ → Type 0
  Apart s (line, t) = (t ≡ s) ⊎ (window_index k t ≢ window_index k s)

  -- A packet that is not a duplicate wins its number.
  process_packet-Won :
      (f : FeedArbitrator) (line : FeedLine) (s : ℕ)
      → IsValid f
      → (process_packet k f line s).0.is_duplicate ≡ false
      → Won (process_packet k f line s).1 line s
  unfolding process_packet
  process_packet-Won f line s v first = ground (
    arith,
    window_index-lt s,
    get_or-set_self f.seen_sequences (window_index k s) s 0,
    get_or-set_self f.winner_lines (window_index k s) line line_a,
  )

  again-Won :
      (f : FeedArbitrator) (line other : FeedLine) (s : ℕ)
      → Won f line s
      → Won (process_packet k f other s).1 line s
  unfolding process_packet
  again-Won f line other s w =
      ground (arith, w.seen, w.winner, ==→ne (get_or f.seen_sequences (window_index k s) 0) s)

  later-Won :
      (f : FeedArbitrator) (line other : FeedLine) (s t : ℕ)
      → Won f line s
      → Apart s (other, t)
      → Won (process_packet k f other t).1 line s
  unfolding process_packet
  later-Won f line other s t w (inl same) =
      subst (λ u. Won (process_packet k f other u).1 line s) (sym same) (again-Won f line other s w)
  later-Won f line other s t w (inr apart) = ground (
    arith,
    get_or-set_ne f.seen_sequences (window_index k t) (window_index k s) t 0 apart,
    get_or-set_ne f.winner_lines (window_index k t) (window_index k s) other line_a apart,
  )

  -- What the results say of the number `s`: every packet of it is a duplicate that `line` won.
  abbrev pub Echo : FeedLine → ℕ → ArbitrationResult → Type 0
  Echo line s r = (r.seq_num ≢ s) ⊎ ((r.is_duplicate ≡ true) × (r.winner_line ≡ line))

  process_packet-seq_num :
      (f : FeedArbitrator) (line : FeedLine) (t : ℕ) → (process_packet k f line t).0.seq_num ≡ t
  unfolding process_packet
  process_packet-seq_num f line t = ground (arith)

  again-duplicate :
      (f : FeedArbitrator) (line other : FeedLine) (s : ℕ)
      → Won f line s
      → ((process_packet k f other s).0.is_duplicate ≡ true)
        × ((process_packet k f other s).0.winner_line ≡ line)
  unfolding process_packet
  again-duplicate f line other s w =
      ground (arith, w.seen, w.winner, ==→ne (get_or f.seen_sequences (window_index k s) 0) s)

  process_packet-Echo :
      (f : FeedArbitrator) (line other : FeedLine) (s t : ℕ)
      → Won f line s
      → Apart s (other, t)
      → Echo line s (process_packet k f other t).0
  process_packet-Echo f line other s t w (inl same) = inr (
      subst
        (λ u.
          ((process_packet k f other u).0.is_duplicate ≡ true)
          × ((process_packet k f other u).0.winner_line ≡ line))
        (sym same) (again-duplicate f line other s w))
  process_packet-Echo f line other s t w (inr apart) =
      inl (λ eq. apart (ap (window_index k) (sym (process_packet-seq_num f other t) ∙ eq)))

  Won-process_all :
      (f : FeedArbitrator) (line : FeedLine) (s : ℕ) (ps : List (FeedLine × ℕ))
      → Won f line s
      → All (Apart s) ps
      → All (Echo line s) (process_all k f ps).0 × Won (process_all k f ps).1 line s
  unfolding process_all
  Won-process_all f line s [] w a = (a, w)
  Won-process_all f line s ((other, t) ∷ ps) w a =
      let rest =
        Won-process_all (process_packet k f other t).1 line s ps (later-Won f line other s t w a.0)
          a.1 in
      ((process_packet-Echo f line other s t w a.0, rest.0), rest.1)

  -- On a valid arbitrator, once a packet is taken as the first of its number, each later packet of
  -- the number is a duplicate, and names the line that won it, as long as no other number of the
  -- same slot has come between.
  pub process_all-Echo :
      (f : FeedArbitrator) (line : FeedLine) (s : ℕ) (ps : List (FeedLine × ℕ))
      → IsValid f
      → All (Apart s) ps
      → (process_packet k f line s).0.is_duplicate ≡ false
      → All (Echo line s) (process_all k (process_packet k f line s).1 ps).0
  process_all-Echo f line s ps v a first =
      (Won-process_all _ line s ps (process_packet-Won f line s v first) a).0

  process_packet_counts :
      (f : FeedArbitrator) (line : FeedLine) (s : ℕ)
      → IsValid f
      → let g = (process_packet k f line s).1 in
        add_u64 g.unique_processed g.duplicates_suppressed
        ≡ (f.unique_processed + f.duplicates_suppressed + 1) % 2 ^ 64
  unfolding process_packet
  process_packet_counts f line s v = ground (arith, v.unique_in, v.duplicates_in)

  process_all-IsValid :
      (f : FeedArbitrator) (ps : List (FeedLine × ℕ)) → IsValid f → IsValid (process_all k f ps).1
  unfolding process_all
  process_all-IsValid f [] v = v
  process_all-IsValid f ((line, s) ∷ ps) v =
      process_all-IsValid (process_packet k f line s).1 ps (process_packet-IsValid f line s v)

  process_all_total :
      (f : FeedArbitrator) (ps : List (FeedLine × ℕ))
      → IsValid f
      → let g = (process_all k f ps).1 in
        add_u64 g.unique_processed g.duplicates_suppressed
        ≡ (f.unique_processed + f.duplicates_suppressed + length ps) % 2 ^ 64
  unfolding process_all
  process_all_total f [] v = omega arith
  process_all_total f ((line, s) ∷ ps) v =
      let one = process_packet_counts f line s v in
      let rest =
        process_all_total (process_packet k f line s).1 ps (process_packet-IsValid f line s v) in
      omega (arith, one, rest)

  -- From a valid arbitrator on, every packet counts once: the accepted and the suppressed ones add
  -- up, modulo 2 ^ 64, to the packets processed, and the wins of the two lines add up to the
  -- accepted ones.
  pub process_all_counts :
      (f : FeedArbitrator) (ps : List (FeedLine × ℕ))
      → IsValid f
      → let g = (process_all k f ps).1 in
        (add_u64 g.unique_processed g.duplicates_suppressed
          ≡ (f.unique_processed + f.duplicates_suppressed + length ps) % 2 ^ 64)
        × (add_u64 g.line_a_wins g.line_b_wins ≡ g.unique_processed)
  process_all_counts f ps v = (process_all_total f ps v, (process_all-IsValid f ps v).wins)
