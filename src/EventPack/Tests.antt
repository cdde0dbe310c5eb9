-- ===== src/EventPack/Tests.antt =====
-- Runs of the event packer, and its theorems at concrete writers.
use zireael.Prelude.{◌≡◌, refl, true, false, some, List, [], ◌∷◌, arith, replicate}
use zireael.Checked.{checked_add_size, checked_align_up_size}
use zireael.EventPack.{
  EvpackWriter, evpack_begin, evpack_append_record2, evpack_finish, append_sized,
  rec_unaligned_size, align4, can_write,
}
use zireael.EventPack.Append.{IsBuffer}
use zireael.EventPack.Atomic.{RecordOutcome, evpack_append_record2-RecordOutcome}
use zireael.EventPack.RoundTrip.{Delivered, AllFit, append_all-records}
use zireael.EventPack.Prefix.{Request, AllRequests, IsOpen, append_all}
use zireael.EventPack.Header.{
  BeginOutcome, Finished, evpack_begin-BeginOutcome, evpack_finish-Finished,
}

-- A batch of 48 bytes that holds its header.
abbrev started_batch : EvpackWriter
started_batch = record {
  out_buf = replicate 48 0;
  out_cap = 48;
  len = 24;
  event_count = 0;
  batch_flags = 0;
  started = true;
  truncated = false;
}

started_batch-IsBuffer : IsBuffer started_batch
started_batch-IsBuffer = record { held = omega arith; size = omega arith; inside = omega arith }

-- A payload of three bytes in two pieces.
evpack_append_record2_example :
    RecordOutcome started_batch 6 7 0
      (1 ∷ 2 ∷ [])
      2
      (3 ∷ [])
      1
      (evpack_append_record2 (some started_batch) 6 7 0 (1 ∷ 2 ∷ []) 2 (3 ∷ []) 1)
evpack_append_record2_example =
    evpack_append_record2-RecordOutcome started_batch 6 7 0 (1 ∷ 2 ∷ []) 2 (3 ∷ []) 1
      started_batch-IsBuffer (omega arith) (omega arith) (omega arith) (omega arith) refl refl

evpack_begin_example : BeginOutcome (replicate 30 9) 30 (evpack_begin (replicate 30 9) 30)
evpack_begin_example = evpack_begin-BeginOutcome (replicate 30 9) 30 (omega arith) (omega arith)

evpack_finish_example :
    (evpack_finish (some started_batch)).0 ≡ 24
    × ((w' : EvpackWriter) × ((evpack_finish (some started_batch)).1 ≡ some w')
        × Finished started_batch w')
evpack_finish_example =
    evpack_finish-Finished started_batch started_batch-IsBuffer refl (omega arith) (omega arith)
      (omega arith)

-- The record's 20 bytes follow the header.
appended_bytes :
    (evpack_append_record2 (some started_batch) 6 7 0 (1 ∷ 2 ∷ []) 2 (3 ∷ []) 1).0 ≡ true
unfolding evpack_append_record2 append_sized rec_unaligned_size checked_add_size align4
    checked_align_up_size can_write
appended_bytes = refl

-- 16 + 12 bytes do not fit in the 24 that are left.
refused : (evpack_append_record2 (some started_batch) 6 7 0 (replicate 9 1) 9 [] 0).0 ≡ false
unfolding evpack_append_record2 append_sized rec_unaligned_size checked_add_size align4
    checked_align_up_size can_write
refused = refl

-- A tick, which fits, and a paste, which does not.
abbrev requests : List Request
requests =
    record { type = 6; time_ms = 7; flags = 0; p1 = 1 ∷ []; n1 = 1; p2 = []; n2 = 0 }
    ∷ record { type = 3; time_ms = 8; flags = 0; p1 = 1 ∷ 2 ∷ []; n1 = 2; p2 = 3 ∷ []; n2 = 1 }
    ∷ []

started_batch-IsOpen : IsOpen started_batch
started_batch-IsOpen = record {
  buffer = started_batch-IsBuffer;
  begun = refl;
  counted = omega arith;
}

requests-AllRequests : AllRequests requests
requests-AllRequests = (
  record { given1 = omega arith; given2 = omega arith; small1 = omega arith; small2 = omega arith },
  (
    record {
      given1 = omega arith;
      given2 = omega arith;
      small1 = omega arith;
      small2 = omega arith;
    },
    tt,
  ),
)

requests-AllFit : AllFit requests
requests-AllFit = (
  record {
    type_small = omega arith;
    time_small = omega arith;
    flags_small = omega arith;
    size_small = omega arith;
  },
  (
    record {
      type_small = omega arith;
      time_small = omega arith;
      flags_small = omega arith;
      size_small = omega arith;
    },
    tt,
  ),
)

append_all-records_example : Delivered started_batch requests (append_all started_batch requests)
append_all-records_example =
    append_all-records started_batch requests started_batch-IsOpen requests-AllRequests
      requests-AllFit refl
