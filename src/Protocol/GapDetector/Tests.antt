-- ===== src/Protocol/GapDetector/Tests.antt =====
-- A detector that expects 5 and reads 5, 9 and 6: one gap from 6 to 8, then a duplicate.
use hft_fix_engine.Base.{ℕ, List, [], ◌∷◌, All, arith, length}
use hft_fix_engine.Protocol.GapDetector.{new_detector, process_sequence, process_all}
use hft_fix_engine.Protocol.GapDetector.Coverage.{
  HasNext, Explained, InRange, Tallied, process_all-Explained, process_all-Tallied,
}

abbrev numbers : List ℕ
numbers = 5 ∷ 9 ∷ 6 ∷ []

numbers-HasNext : All HasNext numbers
numbers-HasNext = omega arith

detector-InRange : InRange (new_detector 5)
unfolding new_detector
detector-InRange = omega arith

process_all-Tallied_example :
    Tallied
      (new_detector 5)
      (process_all (new_detector 5) numbers).1
      (process_all (new_detector 5) numbers).0
      (length numbers)
process_all-Tallied_example =
    process_all-Tallied (new_detector 5) numbers numbers-HasNext detector-InRange

process_all-Explained_example : Explained 7 numbers (process_all (new_detector 5) numbers).0
unfolding new_detector process_all process_sequence
process_all-Explained_example =
    process_all-Explained (new_detector 5) numbers 7 numbers-HasNext (omega arith) (omega arith)
