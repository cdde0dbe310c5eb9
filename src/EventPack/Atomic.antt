-- ===== src/EventPack/Atomic.antt =====
-- zr_evpack_append_record2: a whole record, or nothing but the TRUNCATED mark.
use zireael.Prelude.{
  is_nil_lem, ℕ, ◌+◌, ◌-◌, ◌%◌, ◌^◌, ◌≤◌, ◌<◌, ◌≡◌, refl, sym, ◌⊎◌, inl, inr, Bool, true, false,
  Option, none, some, List, ◌++◌, append_assoc, length, length-append, length-take, take, arith,
  ltb, if◌then◌else◌, subst, bit_or,
}
use zireael.Result.{u32_max}
use zireael.Checked.Laws.{checked_add_size_lem}
use zireael.EventPack.{
  EvpackWriter, ev_batch_truncated, record_header_size, write_record, truncate, rec_unaligned_size,
  append_sized, evpack_append_record2,
}
use zireael.EventPack.Record.{round4, encode}
use zireael.EventPack.Append.{IsBuffer, can_write_lem}
use zireael.EventPack.Batch.{Recorded, write_record-Recorded, align4_lem}

-- The size of a record with a payload of `n` bytes.
abbrev pub size_for : ℕ → ℕ
size_for n = record_header_size + round4 n

pub rec_unaligned_size_lem :
    (n1 n2 : ℕ)
    → n1 < 2 ^ 64
    → n2 < 2 ^ 64
    → rec_unaligned_size n1 n2 ≡ (if ltb (16 + n1 + n2) (2 ^ 64) then some (16 + n1 + n2) else none)
unfolding rec_unaligned_size
rec_unaligned_size_lem n1 n2 h1 h2 =
    ground (arith, checked_add_size_lem 16 n1 (omega arith) h1, checked_add_size_lem (16 + n1) n2)

fit_cases :
    (size limit used cap : ℕ)
    → ((size ≤ limit) × (used + size ≤ cap)) ⊎ ((limit < size) ⊎ (cap < used + size))
fit_cases size limit used cap = ground arith

-- Nothing has changed but the TRUNCATED mark, which is set.
pub record Refused (w w' : EvpackWriter) : Type 0 where
  pub same_buf : w'.out_buf ≡ w.out_buf
  pub same_cap : w'.out_cap ≡ w.out_cap
  pub same_len : w'.len ≡ w.len
  pub same_count : w'.event_count ≡ w.event_count
  pub same_started : w'.started ≡ w.started
  pub marked : w'.truncated ≡ true
  pub flagged : w'.batch_flags ≡ bit_or w.batch_flags ev_batch_truncated

truncate-Refused : (w : EvpackWriter) → Refused w (truncate w).1
truncate-Refused w = record {
  same_buf = refl;
  same_cap = refl;
  same_len = refl;
  same_count = refl;
  same_started = refl;
  marked = refl;
  flagged = refl;
}

-- A record with a payload of `n` bytes is too large for its size field, or for the space left.
abbrev pub NoRoom : EvpackWriter → ℕ → Type 0
NoRoom w n = (u32_max < size_for n) ⊎ (w.out_cap < w.len + size_for n)

module _ (w : EvpackWriter) (type time_ms flags : ℕ) (p1 : List ℕ) (n1 : ℕ) (p2 : List ℕ)
    (n2 : ℕ) where
  abbrev pub payload : List ℕ
  payload = take n1 p1 ++ take n2 p2

  -- The two results of an append to a batch that takes records.
  pub data RecordOutcome : Bool × Option EvpackWriter → Type 0 where
    whole :
        (w' : EvpackWriter)
        → size_for (n1 + n2) ≤ u32_max
        → w.len + size_for (n1 + n2) ≤ w.out_cap
        → Recorded w (encode type time_ms flags payload) w'
        → RecordOutcome (true, some w')
    nothing :
        (w' : EvpackWriter) → NoRoom w (n1 + n2) → Refused w w' → RecordOutcome (false, some w')

  module _ (v : IsBuffer w) (given1 : n1 ≤ length p1) (given2 : n2 ≤ length p2)
      (small1 : n1 < 2 ^ 64) (small2 : n2 < 2 ^ 64) (begun : w.started ≡ true)
      (untruncated : w.truncated ≡ false) where
    length-payload : length payload ≡ n1 + n2
    length-payload =
        omega (arith, length-append (take n1 p1) (take n2 p2), length-take n1 p1, length-take n2 p2)

    abbrev result : Bool × Option EvpackWriter
    result = evpack_append_record2 (some w) type time_ms flags p1 n1 p2 n2

    abbrev written : EvpackWriter
    written =
        write_record w type (size_for (n1 + n2)) time_ms flags p1 n1 p2 n2
          (round4 (n1 + n2) - (n1 + n2))

    result_whole :
        size_for (n1 + n2) ≤ u32_max
        → w.len + size_for (n1 + n2) ≤ w.out_cap
        → result ≡ (true, some written)
    unfolding evpack_append_record2 append_sized
    result_whole a b = ground (
      arith,
      rec_unaligned_size_lem n1 n2 small1 small2,
      align4_lem (16 + n1 + n2),
      can_write_lem w (size_for (n1 + n2)) v,
      is_nil_lem p1,
      is_nil_lem p2,
      v,
    )

    result_nothing : NoRoom w (n1 + n2) → result ≡ (false, some (truncate w).1)
    unfolding evpack_append_record2 append_sized
    result_nothing h = ground (
      arith,
      rec_unaligned_size_lem n1 n2 small1 small2,
      align4_lem (16 + n1 + n2),
      can_write_lem w (size_for (n1 + n2)) v,
      is_nil_lem p1,
      is_nil_lem p2,
      v,
    )

    written-Recorded :
        size_for (n1 + n2) ≤ u32_max
        → w.len + size_for (n1 + n2) ≤ w.out_cap
        → Recorded w (encode type time_ms flags payload) written
    written-Recorded a b =
        let wrap : size_for (n1 + n2) % 2 ^ 32 ≡ size_for (n1 + n2) = omega (arith, a) in
        subst (λ src. Recorded w src written)
          (rw (length-payload, wrap, append_assoc (take n1 p1)) refl)
          (write_record-Recorded w type time_ms flags p1 n1 p2 n2 v given1 given2
            (size_for (n1 + n2)) (round4 (n1 + n2) - (n1 + n2)) (omega arith) (omega arith))

    -- On a started, untruncated batch inside its buffer, an append whose payload pieces are as long
    -- as stated, both lengths below 2^64, has one of two results. Either the record fits in a
    -- uint32_t and in the space left: then the batch grows by exactly the encoded record, its count
    -- by one, and nothing else changes. Or it does not fit: then the call returns false, the
    -- buffer, the length and the count stay, `truncated` is set, and so is ZR_EV_BATCH_TRUNCATED in
    -- the flags of the batch.
    pub evpack_append_record2-RecordOutcome : RecordOutcome result
    evpack_append_record2-RecordOutcome =
        elim (fit_cases (size_for (n1 + n2)) u32_max w.len w.out_cap) [
          | inl (a, b) ↦
              subst RecordOutcome (sym (result_whole a b))
                (whole written a b (written-Recorded a b))
          | inr h ↦
              subst RecordOutcome (sym (result_nothing h))
                (nothing (truncate w).1 h (truncate-Refused w))
        ]
