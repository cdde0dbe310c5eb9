-- ===== src/EventPack/Batch.antt =====
-- zr_evpack_append_record2: a whole record, or nothing but the TRUNCATED mark.
use zireael.Prelude.{
  ℕ, zero, suc, ◌+◌, ◌%◌, ◌^◌, ◌≤◌, ◌<◌, ◌≡◌, refl, ap, true, List, [], ◌∷◌, ◌++◌, length,
  length-append, length-take, take, replicate, arith, ltb, ◌!=◌, if◌then◌else◌,
}
use zireael.Checked.{is_pow2_size}
use zireael.Checked.Align.{checked_align_up_size_lem}
use zireael.Bytes.{store_u32le}
use zireael.EventPack.{EvpackWriter, align4, write_bytes, write_u32le, write_record}
use zireael.EventPack.Record.{round4}
use zireael.EventPack.Append.{
  contents, IsBuffer, Appended, Appended-trans, Appended-nil, write_bytes-Appended,
  write_u32le-Appended,
}

four_pow2 : is_pow2_size 4 ≡ true
unfolding is_pow2_size
four_pow2 = refl

pub align4_lem : (v : ℕ) → v < 2 ^ 64 → align4 v ≡ (if ltb (v + 3) (2 ^ 64) then round4 v else 0)
unfolding align4
align4_lem v h = ground (arith, checked_align_up_size_lem v 4 h (omega arith) four_pow2)

abbrev zeros : List ℕ
zeros = 0 ∷ 0 ∷ 0 ∷ 0 ∷ []

take-zeros : (pad : ℕ) → pad ≤ 4 → take pad zeros ≡ replicate pad 0
take-zeros zero h = refl
take-zeros (suc zero) h = refl
take-zeros (suc (suc zero)) h = refl
take-zeros (suc (suc (suc zero))) h = refl
take-zeros (suc (suc (suc (suc zero)))) h = refl
take-zeros (suc (suc (suc (suc (suc n))))) h = absurd (omega arith)

pad-Appended :
    (w : EvpackWriter) (pad : ℕ)
    → IsBuffer w
    → pad ≤ 4
    → w.len + pad ≤ w.out_cap
    → Appended w (replicate pad 0) (if pad != 0 then (write_bytes w zeros pad).1 else w)
pad-Appended w zero v p fits = Appended-nil w v
pad-Appended w (suc n) v p fits =
    let given : (suc n != 0) ≡ true = ground arith in
    rw (given, ← take-zeros (suc n) p) ((write_bytes-Appended w zeros (suc n) v p fits).1)

-- The new bytes of a record, and its count.
pub record Recorded (w : EvpackWriter) (src : List ℕ) (w' : EvpackWriter) : Type 0 where
  pub buffer : IsBuffer w'
  pub longer : contents w' ≡ contents w ++ src
  pub len_eq : w'.len ≡ w.len + length src
  pub counted : w'.event_count ≡ (w.event_count + 1) % 2 ^ 32
  pub same_cap : w'.out_cap ≡ w.out_cap
  pub same_flags : w'.batch_flags ≡ w.batch_flags
  pub same_started : w'.started ≡ w.started
  pub same_truncated : w'.truncated ≡ w.truncated

module _ (w : EvpackWriter) (type time_ms flags : ℕ) (p1 : List ℕ) (n1 : ℕ) (p2 : List ℕ) (n2 : ℕ)
    (v : IsBuffer w) (given1 : n1 ≤ length p1) (given2 : n2 ≤ length p2) where
  abbrev payload : List ℕ
  payload = take n1 p1 ++ take n2 p2

  length-payload : length payload ≡ n1 + n2
  length-payload =
      omega (arith, length-append (take n1 p1) (take n2 p2), length-take n1 p1, length-take n2 p2)

  module _ (size pad : ℕ) (small : pad ≤ 4) (fits : w.len + (16 + n1 + n2 + pad) ≤ w.out_cap) where
    abbrev src : List ℕ
    src =
        store_u32le type
        ++ (store_u32le (size % 2 ^ 32)
            ++ (store_u32le time_ms
                ++ (store_u32le flags ++ (take n1 p1 ++ (take n2 p2 ++ replicate pad 0)))))

    length_store : (x : ℕ) → length (store_u32le x) ≡ 4
    unfolding store_u32le
    length_store x = refl

    pub write_record-Recorded :
        Recorded w src (write_record w type size time_ms flags p1 n1 p2 n2 pad)
    unfolding write_record
    write_record-Recorded =
        let w1 = (write_u32le w type).1 in
        let a1 = (write_u32le-Appended w type v (omega arith)).1 in
        let l1 = length_store type in
        let w2 = (write_u32le w1 (size % 2 ^ 32)).1 in
        let a2 = (write_u32le-Appended w1 (size % 2 ^ 32) a1.buffer (omega (arith, a1))).1 in
        let l2 = length_store (size % 2 ^ 32) in
        let w3 = (write_u32le w2 time_ms).1 in
        let a3 = (write_u32le-Appended w2 time_ms a2.buffer (omega (arith, a1, a2))).1 in
        let l3 = length_store time_ms in
        let w4 = (write_u32le w3 flags).1 in
        let a4 = (write_u32le-Appended w3 flags a3.buffer (omega (arith, a1, a2, a3))).1 in
        let l4 = length_store flags in
        let w5 = (write_bytes w4 p1 n1).1 in
        let a5 =
          (write_bytes-Appended w4 p1 n1 a4.buffer given1 (omega (arith, a1, a2, a3, a4))).1 in
        let l5 : length (take n1 p1) ≡ n1 = omega (arith, length-take n1 p1) in
        let w6 = (write_bytes w5 p2 n2).1 in
        let a6 =
          (write_bytes-Appended w5 p2 n2 a5.buffer given2 (omega (arith, a1, a2, a3, a4, a5))).1 in
        let l6 : length (take n2 p2) ≡ n2 = omega (arith, length-take n2 p2) in
        let w7 = if pad != 0 then (write_bytes w6 zeros pad).1 else w6 in
        let a7 = pad-Appended w6 pad a6.buffer small (omega (arith, a1, a2, a3, a4, a5, a6)) in
        let all = Appended-trans w w1 w7 _ _ a1 (
          Appended-trans w1 w2 w7 _ _ a2 (
            Appended-trans w2 w3 w7 _ _ a3 (
              Appended-trans w3 w4 w7 _ _ a4
                (Appended-trans w4 w5 w7 _ _ a5 (Appended-trans w5 w6 w7 _ _ a6 a7))))) in
        record {
          buffer = record {
            held = all.buffer.held;
            size = all.buffer.size;
            inside = all.buffer.inside;
          };
          longer = all.longer;
          len_eq = all.len_eq;
          counted = ap (λ n. (n + 1) % 2 ^ 32) all.same_count;
          same_cap = all.same_cap;
          same_flags = all.same_flags;
          same_started = all.same_started;
          same_truncated = all.same_truncated;
        }
