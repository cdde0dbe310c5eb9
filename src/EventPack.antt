-- ===== src/EventPack.antt =====
-- src/core/zr_event_pack.c: the serializer of the packed event batch. The writer's buffer is the
-- list of its cells, and NULL is the empty list.
pub mod Record
pub mod Append
pub mod Batch
pub mod Atomic
pub mod Header
pub mod Prefix
pub mod Decode
pub mod RoundTrip
mod Tests
use zireael.Prelude.{
  is_nil, ℕ, ◌+◌, ◌-◌, ◌%◌, ◌^◌, Bool, true, false, not, ◌&&◌, ◌||◌, Option, none, some, List, [],
  ◌∷◌, ◌++◌, length, bit_or, ltb, leb, ◌==◌, ◌!=◌, if◌then◌else◌, take,
}
use zireael.Prelude.Buffer.{write_at}
use zireael.Result.{ZrResult, zr_ok, zr_err_invalid_argument, zr_err_limit, u32_max}
use zireael.Checked.{checked_add_size, checked_align_up_size}
use zireael.Bytes.{store_u32le}

-- ZR_EV_MAGIC, ZR_EVENT_BATCH_VERSION_V1, ZR_EV_BATCH_TRUNCATED
abbrev pub ev_magic : ℕ
ev_magic = 0x5645525A

abbrev pub event_batch_version_v1 : ℕ
event_batch_version_v1 = 1

abbrev pub ev_batch_truncated : ℕ
ev_batch_truncated = 1

-- sizeof(zr_evbatch_header_t) and sizeof(zr_ev_record_header_t)
abbrev pub batch_header_size : ℕ
batch_header_size = 24

abbrev pub record_header_size : ℕ
record_header_size = 16

-- zr_evpack_writer_t
pub record EvpackWriter : Type 0 where
  pub out_buf : List ℕ
  pub out_cap : ℕ
  pub len : ℕ
  pub event_count : ℕ
  pub batch_flags : ℕ
  pub started : Bool
  pub truncated : Bool

-- The struct after `memset(w, 0, sizeof(*w))`.
abbrev pub zero_writer : EvpackWriter
zero_writer = record {
  out_buf = [];
  out_cap = 0;
  len = 0;
  event_count = 0;
  batch_flags = 0;
  started = false;
  truncated = false;
}

-- zr__align4
unfoldable pub align4 : ℕ → ℕ
align4 v = elim (checked_align_up_size v 4) [ none ↦ 0 | some out ↦ out ]

-- zr__can_write
unfoldable pub can_write : EvpackWriter → ℕ → Bool
can_write w n =
    if (is_nil w.out_buf && (w.out_cap != 0)) || ltb w.out_cap w.len
    then false
    else if ltb ((w.out_cap + 2 ^ 64 - w.len) % 2 ^ 64) n
    then false
    else true

-- zr__write_bytes of the first `n` bytes of `bytes`
unfoldable pub write_bytes : EvpackWriter → List ℕ → ℕ → Bool × EvpackWriter
unfolding can_write
write_bytes w bytes n =
    if is_nil bytes && (n != 0) then (false, w) else if not (can_write w n) then (false, w) else (
      true,
      record w {
        out_buf = if n != 0 then write_at w.out_buf w.len (take n bytes) else w.out_buf;
        len = (w.len + n) % 2 ^ 64;
      },
    )

-- zr__write_u32le
unfoldable pub write_u32le : EvpackWriter → ℕ → Bool × EvpackWriter
write_u32le w v = write_bytes w (store_u32le v) 4

-- A chain of writes joined by `||` on failure: the later ones run only after a success.
abbrev pub write_all_u32le : EvpackWriter → List ℕ → Bool × EvpackWriter
write_all_u32le w [] = (true, w)
write_all_u32le w (v ∷ vs) =
    let rest = write_all_u32le (write_u32le w v).1 vs in
    if (write_u32le w v).0 then rest else (false, (write_u32le w v).1)

-- zr_evpack_begin; every caller passes the address of a writer, whose NULL test has no counterpart.
unfoldable pub evpack_begin : List ℕ → ℕ → ZrResult × EvpackWriter
evpack_begin out_buf out_cap =
    let w = record zero_writer { out_buf = out_buf; out_cap = out_cap } in
    if is_nil out_buf && (out_cap != 0)
    then (zr_err_invalid_argument, w)
    else if ltb out_cap batch_header_size
    then (zr_err_limit, w)
    else (let (written, w') =
          write_all_u32le w (ev_magic ∷ event_batch_version_v1 ∷ 0 ∷ 0 ∷ 0 ∷ 0 ∷ []) in
        if written then (zr_ok, record w' { started = true }) else (zr_err_limit, zero_writer))

-- `w->truncated = true; w->batch_flags |= ZR_EV_BATCH_TRUNCATED; return false;`
abbrev pub truncate : EvpackWriter → Bool × EvpackWriter
truncate w =
    (false, record w { truncated = true; batch_flags = bit_or w.batch_flags ev_batch_truncated })

-- The writes of zr_evpack_append_record2, once the record is known to fit.
unfoldable pub write_record :
    EvpackWriter → ℕ → ℕ → ℕ → ℕ → List ℕ → ℕ → List ℕ → ℕ → ℕ → EvpackWriter
write_record w type rec_size time_ms flags p1 n1 p2 n2 pad =
    let w1 = (write_u32le w type).1 in
    let w2 = (write_u32le w1 (rec_size % 2 ^ 32)).1 in
    let w3 = (write_u32le w2 time_ms).1 in
    let w4 = (write_u32le w3 flags).1 in
    let w5 = (write_bytes w4 p1 n1).1 in
    let w6 = (write_bytes w5 p2 n2).1 in
    let w7 = if pad != 0 then (write_bytes w6 (0 ∷ 0 ∷ 0 ∷ 0 ∷ []) pad).1 else w6 in
    record w7 { event_count = (w7.event_count + 1) % 2 ^ 32 }

-- sizeof(zr_ev_record_header_t) + n1 + n2, checked
unfoldable pub rec_unaligned_size : ℕ → ℕ → Option ℕ
rec_unaligned_size n1 n2 = elim (checked_add_size record_header_size n1) [
  | none ↦ none
  | some rec_unaligned ↦ checked_add_size rec_unaligned n2
]

-- The rest of zr_evpack_append_record2, from `rec_size` on.
unfoldable pub append_sized :
    EvpackWriter → ℕ → ℕ → ℕ → List ℕ → ℕ → List ℕ → ℕ → ℕ → Bool × EvpackWriter
append_sized w type time_ms flags p1 n1 p2 n2 rec_unaligned =
    let rec_size = align4 rec_unaligned in
    if (rec_size == 0) || ltb u32_max rec_size
    then truncate w
    else if not (can_write w rec_size)
    then truncate w
    else (
      true,
      write_record w type rec_size time_ms flags p1 n1 p2 n2
          ((rec_size + 2 ^ 64 - rec_unaligned) % 2 ^ 64),
    )

-- zr_evpack_append_record2
unfoldable pub evpack_append_record2 :
    Option EvpackWriter → ℕ → ℕ → ℕ → List ℕ → ℕ → List ℕ → ℕ → Bool × Option EvpackWriter
evpack_append_record2 none type time_ms flags p1 n1 p2 n2 = (false, none)
evpack_append_record2 (some w) type time_ms flags p1 n1 p2 n2 =
    if not w.started
    then (false, some w)
    else if w.truncated
    then (false, some w)
    else (let (appended, w') =
          if (is_nil p1 && (n1 != 0)) || (is_nil p2 && (n2 != 0))
          then truncate w
          else elim (rec_unaligned_size n1 n2) [
            | none ↦ truncate w
            | some rec_unaligned ↦ append_sized w type time_ms flags p1 n1 p2 n2 rec_unaligned
          ] in
        (appended, some w'))

-- zr_evpack_append_record
unfoldable pub evpack_append_record :
    Option EvpackWriter → ℕ → ℕ → ℕ → List ℕ → ℕ → Bool × Option EvpackWriter
evpack_append_record w type time_ms flags payload payload_len =
    evpack_append_record2 w type time_ms flags payload payload_len [] 0

-- zr_evpack_finish
unfoldable pub evpack_finish : Option EvpackWriter → ℕ × Option EvpackWriter
evpack_finish none = (0, none)
evpack_finish (some w) = if not w.started then (0, some w) else (
  w.len,
  (if not (is_nil w.out_buf) && leb batch_header_size w.len
      then some (record w {
        out_buf =
            write_at
              (write_at (write_at w.out_buf 8 (store_u32le (w.len % 2 ^ 32))) 12
                (store_u32le w.event_count))
              16 (store_u32le w.batch_flags);
      })
      else some w),
)

-- zr_evpack_truncated
unfoldable pub evpack_truncated : Option EvpackWriter → Bool
evpack_truncated none = true
evpack_truncated (some w) = w.truncated
