-- ===== src/Protocol/FlatBook/Tests.antt =====
-- A side of four places with two bids, one to insert between them and one to erase.
use hft_fix_engine.Base.{[], ◌∷◌, ◌≡◌, pos, true, ltb, arith}
use hft_fix_engine.Protocol.FlatBook.{FlatOrderBook, blank_level, insert_or_update, erase}
use hft_fix_engine.Protocol.FlatBook.Bounds.{IsBounded}
use hft_fix_engine.Protocol.FlatBook.Levels.{live, upsert, insert_or_update_refines}
use hft_fix_engine.Protocol.FlatBook.Removal.{remove, erase_refines}
use hft_fix_engine.Protocol.FlatBook.Sorted.{IsSorted, insert_or_update-IsSorted}

abbrev bids : FlatOrderBook
bids = record {
  levels =
      record { price_scaled = pos 100; quantity = 9 }
      ∷ record { price_scaled = pos 98; quantity = 4 }
      ∷ blank_level
      ∷ blank_level
      ∷ [];
  count = 2;
}

bids-IsBounded : IsBounded 4 true bids
bids-IsBounded = ground arith

insert_or_update_refines_example :
    live (insert_or_update 4 true bids (pos 99) 7)
    ≡ upsert 4 true (ltb bids.count 4) (pos 99) 7 (live bids)
insert_or_update_refines_example = insert_or_update_refines 4 true bids (pos 99) 7 bids-IsBounded

erase_refines_example : live (erase 4 true bids (pos 100)) ≡ remove (pos 100) (live bids)
erase_refines_example = erase_refines 4 true bids (pos 100) bids-IsBounded

bids-IsSorted : IsSorted true (live bids)
bids-IsSorted = ground arith

insert_or_update-IsSorted_example :
    IsSorted true (live (insert_or_update 4 true bids (pos 99) 7))
    × IsSorted true (live (erase 4 true bids (pos 99)))
insert_or_update-IsSorted_example =
    insert_or_update-IsSorted 4 true bids (pos 99) 7 bids-IsBounded bids-IsSorted
