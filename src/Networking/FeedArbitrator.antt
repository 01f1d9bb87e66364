-- ===== src/Networking/FeedArbitrator.antt =====
-- include/hft/networking/FeedArbitrator.hpp: of the two lines that carry the same numbered packets,
-- the first to deliver a number wins. The last number and its line are kept for each of 2 ^ k slots.
pub mod Suppress
mod Tests
use hft_fix_engine.Base.{
  ℕ, ◌-◌, ◌^◌, bit_and, Bool, true, false, List, [], ◌∷◌, get_or, set, replicate, length, ◌==◌,
  if◌then◌else◌, add_u64,
}

pub data FeedLine : Type 0 where
  line_a line_b : FeedLine

pub record ArbitrationResult : Type 0 where
  pub is_duplicate : Bool
  pub winner_line : FeedLine
  pub seq_num : ℕ

pub record FeedArbitrator : Type 0 where
  pub seen_sequences : List ℕ
  pub winner_lines : List FeedLine
  pub unique_processed : ℕ
  pub duplicates_suppressed : ℕ
  pub line_a_wins : ℕ
  pub line_b_wins : ℕ

module _ (k : ℕ) where
  -- The constructor.
  unfoldable pub new_arbitrator : FeedArbitrator
  new_arbitrator = record {
    seen_sequences = replicate (2 ^ k) 0;
    winner_lines = replicate (2 ^ k) line_a;
    unique_processed = 0;
    duplicates_suppressed = 0;
    line_a_wins = 0;
    line_b_wins = 0;
  }

  -- `seq_num & (WindowSize - 1)`.
  unfoldable pub window_index : ℕ → ℕ
  window_index seq_num = bit_and seq_num (2 ^ k - 1)

  unfoldable pub process_packet : FeedArbitrator → FeedLine → ℕ → ArbitrationResult × FeedArbitrator
  process_packet f line seq_num =
      let idx = window_index seq_num in
      if get_or f.seen_sequences idx 0 == seq_num
      then (
        record {
          is_duplicate = true;
          winner_line = get_or f.winner_lines idx line_a;
          seq_num = seq_num;
        },
        record f { duplicates_suppressed = add_u64 f.duplicates_suppressed 1 },
      )
      else (
        record { is_duplicate = false; winner_line = line; seq_num = seq_num },
        record {
          seen_sequences = set f.seen_sequences idx seq_num;
          winner_lines = set f.winner_lines idx line;
          unique_processed = add_u64 f.unique_processed 1;
          duplicates_suppressed = f.duplicates_suppressed;
          line_a_wins = elim line [ line_a ↦ add_u64 f.line_a_wins 1 | line_b ↦ f.line_a_wins ];
          line_b_wins = elim line [ line_a ↦ f.line_b_wins | line_b ↦ add_u64 f.line_b_wins 1 ];
        },
      )

  -- Both arrays are filled anew.
  unfoldable pub reset : FeedArbitrator → FeedArbitrator
  unfolding new_arbitrator
  reset f = new_arbitrator

  -- The packets of both lines, in the order of arrival, with the results.
  unfoldable pub process_all :
      FeedArbitrator → List (FeedLine × ℕ) → List ArbitrationResult × FeedArbitrator
  process_all f [] = ([], f)
  process_all f ((line, s) ∷ ps) =
      let (r, f') = process_packet f line s in let (rs, g) = process_all f' ps in (r ∷ rs, g)
