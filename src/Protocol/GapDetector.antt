-- ===== src/Protocol/GapDetector.antt =====
-- include/hft/protocol/SequenceGapDetector.hpp: the sequence numbers of the feed, the gaps in them,
-- and the ResendRequest text of a gap. `snprintf` prints the text, cuts it at the buffer's end and
-- returns its whole length.
pub mod Coverage
pub mod Message
mod Tests
use hft_fix_engine.Base.{
  ℕ, ◌+◌, ◌-◌, Bool, List, [], ◌∷◌, ◌++◌, length, take, ltb, ◌==◌, if◌then◌else◌, Bytes, codes,
  decimal, add_u64,
}

pub record SequenceGap : Type 0 where
  pub begin_seq : ℕ
  pub end_seq : ℕ
  pub missing_count : ℕ

pub data GapStatus : Type 0 where
  in_sequence gap_detected duplicate : GapStatus

pub record GapCheckResult : Type 0 where
  pub status : GapStatus
  pub gap : SequenceGap
  pub resend_request_msg : Bytes
  pub resend_request_len : ℕ

pub record SequenceGapDetector : Type 0 where
  pub expected_seq : ℕ
  pub gaps_detected : ℕ
  pub packets_lost : ℕ
  pub duplicates_count : ℕ

abbrev pub no_gap : SequenceGap
no_gap = record { begin_seq = 0; end_seq = 0; missing_count = 0 }

-- `tag=value` and the delimiter.
abbrev pub field : Bytes → Bytes → Bytes
field tag value = tag ++ (value ++ (1 ∷ []))

-- The fields that BodyLength counts: those behind it, up to the checksum.
unfoldable pub resend_body : ℕ → ℕ → Bytes
resend_body begin_seq end_seq =
    field (codes "35=") (codes "2")
    ++ (field (codes "49=") (codes "HFT_ENGINE")
        ++ (field (codes "56=") (codes "EXCHANGE")
            ++ (field (codes "7=") (decimal begin_seq) ++ field (codes "16=") (decimal end_seq))))

-- What the format string makes of a gap.
unfoldable pub resend_text : ℕ → ℕ → Bytes
unfolding resend_body
resend_text begin_seq end_seq =
    (field (codes "8=") (codes "FIX.4.2") ++ field (codes "9=") (codes "78"))
    ++ (resend_body begin_seq end_seq ++ field (codes "10=") (codes "128"))

unfoldable pub process_sequence : SequenceGapDetector → ℕ → GapCheckResult × SequenceGapDetector
unfolding resend_text
process_sequence d incoming_seq =
    if incoming_seq == d.expected_seq
    then (
      record {
        status = in_sequence;
        gap = no_gap;
        resend_request_msg = [];
        resend_request_len = 0;
      },
      record d { expected_seq = add_u64 d.expected_seq 1 },
    )
    else if ltb d.expected_seq incoming_seq
    then (let missing = incoming_seq - d.expected_seq in
        let text = resend_text d.expected_seq (incoming_seq - 1) in
        (
          record {
            status = gap_detected;
            gap = record {
              begin_seq = d.expected_seq;
              end_seq = incoming_seq - 1;
              missing_count = missing;
            };
            resend_request_msg = take 255 text;
            resend_request_len = length text;
          },
          record {
            expected_seq = add_u64 incoming_seq 1;
            gaps_detected = add_u64 d.gaps_detected 1;
            packets_lost = add_u64 d.packets_lost missing;
            duplicates_count = d.duplicates_count;
          },
        ))
    else (
      record { status = duplicate; gap = no_gap; resend_request_msg = []; resend_request_len = 0 },
      record d { duplicates_count = add_u64 d.duplicates_count 1 },
    )

unfoldable pub reset : SequenceGapDetector → ℕ → SequenceGapDetector
reset d next_expected = record {
  expected_seq = next_expected;
  gaps_detected = 0;
  packets_lost = 0;
  duplicates_count = 0;
}

-- The constructor.
unfoldable pub new_detector : ℕ → SequenceGapDetector
new_detector initial_expected = record {
  expected_seq = initial_expected;
  gaps_detected = 0;
  packets_lost = 0;
  duplicates_count = 0;
}

-- The calls for a row of incoming numbers, with their results.
unfoldable pub process_all :
    SequenceGapDetector → List ℕ → List GapCheckResult × SequenceGapDetector
process_all d [] = ([], d)
process_all d (s ∷ ss) =
    let (r, d') = process_sequence d s in let (rs, e) = process_all d' ss in (r ∷ rs, e)
