-- ===== src/Networking/FeedArbitrator/Tests.antt =====
-- Four slots, and the numbers 1 and 2 on both lines.
use hft_fix_engine.Base.{ℕ, List, [], ◌∷◌, All, arith, refl, inl, inr}
use hft_fix_engine.Networking.FeedArbitrator.{
  FeedLine, line_a, line_b, new_arbitrator, window_index, process_packet, process_all,
}
use hft_fix_engine.Networking.FeedArbitrator.Suppress.{
  new_arbitrator-IsValid, Apart, Echo, process_all-Echo,
}

abbrev packets : List (FeedLine × ℕ)
packets = (line_b, 1) ∷ (line_a, 2) ∷ (line_b, 2) ∷ (line_a, 1) ∷ []

packets-Apart : All (Apart 2 1) packets
unfolding window_index
packets-Apart = (inl refl, (inr (omega arith), (inr (omega arith), (inl refl, tt))))

process_all-Echo_example :
    All (Echo 2 line_a 1) (process_all 2 (process_packet 2 (new_arbitrator 2) line_a 1).1 packets).0
unfolding new_arbitrator process_packet window_index
process_all-Echo_example =
    process_all-Echo 2 (new_arbitrator 2) line_a 1 packets (new_arbitrator-IsValid 2) packets-Apart
      refl
