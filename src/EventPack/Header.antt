-- ===== src/EventPack/Header.antt =====
-- zr_evpack_begin and zr_evpack_finish: the batch's header.
use zireael.Prelude.{
  is_nil_lem, ℕ, ◌+◌, ◌*◌, ◌%◌, ◌^◌, ◌≤◌, ◌<◌, ◌≡◌, refl, sym, ap, ◌∙◌, inl, inr, true, false, some,
  List, [], ◌∷◌, ◌++◌, length, arith, leb, leb→le, Bool-cases, subst,
}
use zireael.Prelude.Buffer.{
  write_at, slice, length-write_at, slice-write_at_self, slice-write_at_disjoint,
}
use zireael.Result.{ZrResult, zr_ok, zr_err_limit}
use zireael.Bytes.{store_u32le, load_u32le}
use zireael.Bytes.Endian.{load-store_u32le}
use zireael.EventPack.{
  EvpackWriter, write_u32le, write_all_u32le, zero_writer, evpack_begin, evpack_finish,
  batch_header_size, ev_magic, event_batch_version_v1,
}
use zireael.EventPack.Append.{
  contents, IsBuffer, Appended, Appended-trans, Appended-nil, write_u32le-Appended,
}

-- The bytes of a list of numbers.
abbrev pub store_all : List ℕ → List ℕ
store_all [] = []
store_all (v ∷ vs) = store_u32le v ++ store_all vs

length-store_u32le : (x : ℕ) → length (store_u32le x) ≡ 4
unfolding store_u32le
length-store_u32le x = refl

write_all_u32le-Appended :
    (vs : List ℕ) (w : EvpackWriter)
    → IsBuffer w
    → w.len + 4 * length vs ≤ w.out_cap
    → ((write_all_u32le w vs).0 ≡ true) × Appended w (store_all vs) (write_all_u32le w vs).1
write_all_u32le-Appended [] w v fits = (refl, Appended-nil w v)
write_all_u32le-Appended (x ∷ xs) w v fits =
    let first = write_u32le-Appended w x v (omega arith) in
    let size : length (store_u32le x) ≡ 4 = length-store_u32le x in
    let rest =
      write_all_u32le-Appended xs (write_u32le w x).1 first.1.buffer (omega (arith, first)) in
    rw (first.0) (rest.0, Appended-trans w _ _ (store_u32le x) (store_all xs) first.1 rest.1)

abbrev header_numbers : List ℕ
header_numbers = ev_magic ∷ event_batch_version_v1 ∷ 0 ∷ 0 ∷ 0 ∷ 0 ∷ []

-- A fresh batch: the header's bytes alone, no record, not truncated.
pub record IsFresh (w : EvpackWriter) : Type 0 where
  pub buffer : IsBuffer w
  pub header : contents w ≡ store_all header_numbers
  pub begun : w.started ≡ true
  pub untruncated : w.truncated ≡ false
  pub no_events : w.event_count ≡ 0
  pub no_flags : w.batch_flags ≡ 0

pub data BeginOutcome (out_buf : List ℕ) (out_cap : ℕ) : ZrResult × EvpackWriter → Type 0 where
  begun :
      (w : EvpackWriter)
      → batch_header_size ≤ out_cap
      → IsFresh w
      → BeginOutcome out_buf out_cap (zr_ok, w)
  too_small :
      out_cap < batch_header_size
      → BeginOutcome out_buf out_cap
          (zr_err_limit, record zero_writer { out_buf = out_buf; out_cap = out_cap })

module _ (out_buf : List ℕ) (out_cap : ℕ) (held : out_cap ≤ length out_buf)
    (small : out_cap < 2 ^ 64) where
  abbrev empty : EvpackWriter
  empty = record zero_writer { out_buf = out_buf; out_cap = out_cap }

  empty-IsBuffer : IsBuffer empty
  empty-IsBuffer = record { held = held; size = small; inside = omega arith }

  evpack_begin_small :
      out_cap < batch_header_size → evpack_begin out_buf out_cap ≡ (zr_err_limit, empty)
  unfolding evpack_begin
  evpack_begin_small h = ground (arith, is_nil_lem out_buf)

  evpack_begin_large :
      batch_header_size ≤ out_cap
      → evpack_begin out_buf out_cap
        ≡ (zr_ok, record (write_all_u32le empty header_numbers).1 { started = true })
  unfolding evpack_begin
  evpack_begin_large h = ground (
    arith,
    is_nil_lem out_buf,
    (write_all_u32le-Appended header_numbers empty empty-IsBuffer h).0,
  )

  large-IsFresh :
      batch_header_size ≤ out_cap
      → IsFresh (record (write_all_u32le empty header_numbers).1 { started = true })
  large-IsFresh h =
      let a = (write_all_u32le-Appended header_numbers empty empty-IsBuffer h).1 in
      record {
        buffer = record { held = a.buffer.held; size = a.buffer.size; inside = a.buffer.inside };
        header = a.longer;
        begun = refl;
        untruncated = a.same_truncated;
        no_events = a.same_count;
        no_flags = a.same_flags;
      }

  -- With a buffer as long as `out_cap`, below 2^64, a batch is begun exactly when the header's 24
  -- bytes fit: then the batch holds the magic, the version and four zeros, no record, and it is
  -- started and not truncated. Otherwise the result is ZR_ERR_LIMIT and nothing is written.
  pub evpack_begin-BeginOutcome : BeginOutcome out_buf out_cap (evpack_begin out_buf out_cap)
  evpack_begin-BeginOutcome = elim (Bool-cases (leb batch_header_size out_cap)) [
    | inl h ↦
        let fits = leb→le _ _ h in
        subst (BeginOutcome out_buf out_cap) (sym (evpack_begin_large fits))
          (begun _ fits (large-IsFresh fits))
    | inr h ↦
        let small : out_cap < batch_header_size = ground (arith, h) in
        subst (BeginOutcome out_buf out_cap) (sym (evpack_begin_small small)) (too_small small)
  ]

-- The header's number at `off`.
abbrev pub header_at : List ℕ → ℕ → ℕ
header_at buf off = load_u32le (slice buf off 4)

header_at-own :
    (buf : List ℕ) (off v : ℕ)
    → off + 4 ≤ length buf
    → v < 2 ^ 32
    → header_at (write_at buf off (store_u32le v)) off ≡ v
unfolding store_u32le
header_at-own buf off v fits small =
    ap load_u32le (slice-write_at_self buf off (store_u32le v) fits) ∙ load-store_u32le v [] small

header_at-behind :
    (buf : List ℕ) (off v a : ℕ)
    → a + 4 ≤ off
    → header_at (write_at buf off (store_u32le v)) a ≡ header_at buf a
header_at-behind buf off v a h =
    ap load_u32le (slice-write_at_disjoint buf off (store_u32le v) a 4 (inl h))

-- The batch as it is handed over.
pub record Finished (w w' : EvpackWriter) : Type 0 where
  pub total_size : header_at w'.out_buf 8 ≡ w.len % 2 ^ 32
  pub counted : header_at w'.out_buf 12 ≡ w.event_count
  pub flagged : header_at w'.out_buf 16 ≡ w.batch_flags
  pub start_kept : slice w'.out_buf 0 8 ≡ slice w.out_buf 0 8
  pub records_kept : (n : ℕ) → slice w'.out_buf 20 n ≡ slice w.out_buf 20 n
  pub same_size : length w'.out_buf ≡ length w.out_buf

module _ (w : EvpackWriter) (v : IsBuffer w) (begun : w.started ≡ true)
    (header : batch_header_size ≤ w.len) where
  abbrev patched : EvpackWriter
  patched = record w {
    out_buf =
        write_at
          (write_at (write_at w.out_buf 8 (store_u32le (w.len % 2 ^ 32))) 12
            (store_u32le w.event_count))
          16 (store_u32le w.batch_flags);
  }

  abbrev n1 : ℕ
  n1 = w.event_count

  abbrev n2 : ℕ
  n2 = w.batch_flags

  abbrev b1 : List ℕ
  b1 = write_at w.out_buf 8 (store_u32le (w.len % 2 ^ 32))

  abbrev b2 : List ℕ
  b2 = write_at b1 12 (store_u32le n1)

  l1 : length b1 ≡ length w.out_buf
  l1 = length-write_at w.out_buf 8 (store_u32le (w.len % 2 ^ 32))

  l2 : length b2 ≡ length b1
  l2 = length-write_at b1 12 (store_u32le n1)

  evpack_finish_eq : evpack_finish (some w) ≡ (w.len, some patched)
  unfolding evpack_finish
  evpack_finish_eq = ground (arith, v, is_nil_lem w.out_buf)

  module _ (small_count : w.event_count < 2 ^ 32) (small_flags : w.batch_flags < 2 ^ 32) where
    -- A started batch that stands inside its buffer, with a count and flags below 2^32, and that
    -- holds its header is handed over with its length as the result and, at bytes 8, 12 and 16, its
    -- length modulo 2^32, its count and its flags; the magic and the version before them and
    -- everything behind them, the records, are as they were.
    pub evpack_finish-Finished :
        (evpack_finish (some w)).0 ≡ w.len
        × ((w' : EvpackWriter) × ((evpack_finish (some w)).1 ≡ some w') × Finished w w')
    unfolding store_u32le
    evpack_finish-Finished = rw evpack_finish_eq (
      refl,
      (
        patched,
        refl,
        record {
          total_size =
              header_at-behind b2 16 n2 8 (omega arith)
              ∙ header_at-behind b1 12 n1 8 (omega arith)
              ∙ header_at-own w.out_buf 8 (w.len % 2 ^ 32) (omega (arith, v)) (omega arith);
          counted =
              header_at-behind b2 16 n2 12 (omega arith)
              ∙ header_at-own b1 12 n1 (omega (arith, v, l1)) small_count;
          flagged = header_at-own b2 16 n2 (omega (arith, v, l1, l2)) small_flags;
          start_kept =
              slice-write_at_disjoint b2 16 (store_u32le n2) 0 8 (inl (omega arith))
              ∙ slice-write_at_disjoint b1 12 (store_u32le n1) 0 8 (inl (omega arith))
              ∙ slice-write_at_disjoint w.out_buf 8 (store_u32le (w.len % 2 ^ 32)) 0 8
                  (inl (omega arith));
          records_kept = λ n.
              slice-write_at_disjoint b2 16 (store_u32le n2) 20 n (inr (omega arith))
              ∙ slice-write_at_disjoint b1 12 (store_u32le n1) 20 n (inr (omega arith))
              ∙ slice-write_at_disjoint w.out_buf 8 (store_u32le (w.len % 2 ^ 32)) 20 n
                  (inr (omega arith));
          same_size = length-write_at b2 16 (store_u32le n2) ∙ l2 ∙ l1;
        },
      ),
    )
