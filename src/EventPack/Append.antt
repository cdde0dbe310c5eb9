-- ===== src/EventPack/Append.antt =====
-- zr_event_pack.c: what a write that fits appends to the batch.
use zireael.Prelude.{
  is_nil_lem, ℕ, zero, suc, ◌+◌, ◌-◌, ◌^◌, ◌≤◌, ◌<◌, ◌≡◌, refl, sym, ap, ◌∙◌, true, List, [], ◌++◌,
  append_assoc, append-nil, length, length-append, length-take, take, arith, leb,
}
use zireael.Prelude.Buffer.{write_at, length-write_at, take-write_at_append}
use zireael.Bytes.{store_u32le}
use zireael.EventPack.{EvpackWriter, can_write, write_bytes, write_u32le}

-- The bytes written so far.
abbrev pub contents : EvpackWriter → List ℕ
contents w = take w.len w.out_buf

-- The writer stands inside its buffer.
pub record IsBuffer (w : EvpackWriter) : Type 0 where
  pub held : w.out_cap ≤ length w.out_buf
  pub size : w.out_cap < 2 ^ 64
  pub inside : w.len ≤ w.out_cap

-- `src` has been appended, and nothing else has changed.
pub record Appended (w : EvpackWriter) (src : List ℕ) (w' : EvpackWriter) : Type 0 where
  pub buffer : IsBuffer w'
  pub longer : contents w' ≡ contents w ++ src
  pub len_eq : w'.len ≡ w.len + length src
  pub same_cap : w'.out_cap ≡ w.out_cap
  pub same_count : w'.event_count ≡ w.event_count
  pub same_flags : w'.batch_flags ≡ w.batch_flags
  pub same_started : w'.started ≡ w.started
  pub same_truncated : w'.truncated ≡ w.truncated

pub Appended-trans :
    (w w' w'' : EvpackWriter) (src src' : List ℕ)
    → Appended w src w'
    → Appended w' src' w''
    → Appended w (src ++ src') w''
Appended-trans w w' w'' src src' a b = record {
  buffer = b.buffer;
  longer = b.longer ∙ ap (λ l. l ++ src') a.longer ∙ append_assoc (contents w) src src';
  len_eq = omega (arith, a.len_eq, b.len_eq, length-append src src');
  same_cap = b.same_cap ∙ a.same_cap;
  same_count = b.same_count ∙ a.same_count;
  same_flags = b.same_flags ∙ a.same_flags;
  same_started = b.same_started ∙ a.same_started;
  same_truncated = b.same_truncated ∙ a.same_truncated;
}

pub Appended-nil : (w : EvpackWriter) → IsBuffer w → Appended w [] w
Appended-nil w v = record {
  buffer = v;
  longer = sym (append-nil (contents w));
  len_eq = omega arith;
  same_cap = refl;
  same_count = refl;
  same_flags = refl;
  same_started = refl;
  same_truncated = refl;
}

-- A write fits exactly when the space left is large enough.
pub can_write_lem :
    (w : EvpackWriter) (n : ℕ) → IsBuffer w → can_write w n ≡ leb n (w.out_cap - w.len)
unfolding can_write
can_write_lem w n v = ground (arith, is_nil_lem w.out_buf)

write_bytes_eq :
    (w : EvpackWriter) (bytes : List ℕ) (n : ℕ)
    → IsBuffer w
    → 0 < n
    → n ≤ length bytes
    → w.len + n ≤ w.out_cap
    → write_bytes w bytes n
      ≡ (true, record w { out_buf = write_at w.out_buf w.len (take n bytes); len = w.len + n })
unfolding write_bytes
write_bytes_eq w bytes n v p given fits = ground (arith, is_nil_lem bytes, is_nil_lem w.out_buf)

write_bytes_zero :
    (w : EvpackWriter) (bytes : List ℕ) → IsBuffer w → write_bytes w bytes 0 ≡ (true, w)
unfolding write_bytes
write_bytes_zero w bytes v = ground (arith, is_nil_lem w.out_buf)

pub write_bytes-Appended :
    (w : EvpackWriter) (bytes : List ℕ) (n : ℕ)
    → IsBuffer w
    → n ≤ length bytes
    → w.len + n ≤ w.out_cap
    → ((write_bytes w bytes n).0 ≡ true) × Appended w (take n bytes) (write_bytes w bytes n).1
write_bytes-Appended w bytes zero v given fits =
    rw (write_bytes_zero w bytes v) (refl, Appended-nil w v)
write_bytes-Appended w bytes (suc n) v given fits =
    let src = take (suc n) bytes in
    let size : length src ≡ suc n = omega (arith, length-take (suc n) bytes) in
    rw (write_bytes_eq w bytes (suc n) v (omega arith) given fits) (
      refl,
      record {
        buffer = record {
          held = omega (arith, v, length-write_at w.out_buf w.len src);
          size = v.size;
          inside = fits;
        };
        longer =
            take-write_at_append w.out_buf w.len src (w.len + suc n) (omega arith) (omega arith);
        len_eq = omega arith;
        same_cap = refl;
        same_count = refl;
        same_flags = refl;
        same_started = refl;
        same_truncated = refl;
      },
    )

pub write_u32le-Appended :
    (w : EvpackWriter) (v : ℕ)
    → IsBuffer w
    → w.len + 4 ≤ w.out_cap
    → ((write_u32le w v).0 ≡ true) × Appended w (store_u32le v) (write_u32le w v).1
unfolding write_u32le store_u32le
write_u32le-Appended w v b fits = write_bytes-Appended w (store_u32le v) 4 b (omega arith) fits
