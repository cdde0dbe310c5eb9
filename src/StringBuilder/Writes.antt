-- ===== src/StringBuilder/Writes.antt =====
-- zr_string_builder.c: a write appends all of its bytes, or none and the truncated mark; the numbers
-- written are read back.
use zireael.Prelude.{
  is_nil_lem, ℕ, zero, suc, ◌+◌, ◌^◌, ◌≤◌, ◌<◌, ◌≡◌, refl, sym, ap, ◌∙◌, inl, inr, Bool, true,
  false, List, [], ◌++◌, Option, some, length, length-take, take, arith, leb, ◌!=◌, if◌then◌else◌,
  Bool-cases, leb→le, append-nil, subst,
}
use zireael.Prelude.Buffer.{
  write_at, slice, length-write_at, take-write_at_append, slice-write_at_self,
}
use zireael.Bytes.{store_u32le, load_u32le}
use zireael.Bytes.Endian.{load-store_u32le}
use zireael.StringBuilder.{
  StringBuilder, sb_can_write, sb_remaining, sb_write_bytes, sb_write_u32le,
}

-- The builder stands inside its buffer.
pub record IsValid (sb : StringBuilder) : Type 0 where
  pub held : sb.cap ≤ length sb.buf
  pub size : sb.cap < 2 ^ 64
  pub inside : sb.len ≤ sb.cap

abbrev pub contents : StringBuilder → List ℕ
contents sb = take sb.len sb.buf

-- All of `src`, or the mark alone.
pub data WriteOutcome (sb : StringBuilder) (src : List ℕ)
    : Bool × Option StringBuilder → Type 0 where
  all :
      (sb' : StringBuilder)
      → sb.len + length src ≤ sb.cap
      → IsValid sb'
      → contents sb' ≡ contents sb ++ src
      → sb'.len ≡ sb.len + length src
      → sb'.truncated ≡ sb.truncated
      → WriteOutcome sb src (true, some sb')
  nothing :
      sb.cap < sb.len + length src
      → WriteOutcome sb src (false, some (record sb { truncated = true }))

module _ (sb : StringBuilder) (v : IsValid sb) (bytes : List ℕ) (n : ℕ)
    (given : n ≤ length bytes) where
  abbrev src : List ℕ
  src = take n bytes

  length-src : length src ≡ n
  length-src = omega (arith, length-take n bytes)

  abbrev written : StringBuilder
  written = record sb {
    buf = if n != 0 then write_at sb.buf sb.len src else sb.buf;
    len = sb.len + n;
  }

  write_fits : sb.len + n ≤ sb.cap → sb_write_bytes (some sb) bytes n ≡ (true, some written)
  unfolding sb_write_bytes sb_can_write sb_remaining
  write_fits h = ground (arith, is_nil_lem bytes, is_nil_lem sb.buf, v)

  write_refused :
      sb.cap < sb.len + n
      → sb_write_bytes (some sb) bytes n ≡ (false, some (record sb { truncated = true }))
  unfolding sb_write_bytes sb_can_write sb_remaining
  write_refused h = ground (arith, is_nil_lem bytes, is_nil_lem sb.buf, v)

  written-IsValid : sb.len + n ≤ sb.cap → IsValid written
  written-IsValid h = record {
    held = ground (arith, v, length-write_at sb.buf sb.len src);
    size = v.size;
    inside = h;
  }

written-contents :
    (sb : StringBuilder) (v : IsValid sb) (bytes : List ℕ) (n : ℕ) (given : n ≤ length bytes)
    → sb.len + n ≤ sb.cap
    → contents (written sb v bytes n given) ≡ contents sb ++ take n bytes
written-contents sb v bytes zero given h =
    let e : sb.len + 0 ≡ sb.len = omega arith in
    ap (λ k. take k sb.buf) e ∙ sym (append-nil (contents sb))
written-contents sb v bytes (suc n) given h =
    let some_bytes : (suc n != 0) ≡ true = ground arith in
    rw some_bytes (
      take-write_at_append sb.buf sb.len (take (suc n) bytes) (sb.len + suc n)
        (omega (arith, length-take (suc n) bytes)) (omega (arith, v)))

-- A valid builder takes the first `n` of the given bytes, at least as many, in one of two ways:
-- where they fit, all of them are added at the end, and the builder stays valid with its mark as it
-- was; where they do not, the write returns false, and only the truncated mark changes.
pub sb_write_bytes-WriteOutcome :
    (sb : StringBuilder)
    → IsValid sb
    → (bytes : List ℕ) (n : ℕ) → n ≤ length bytes
    → WriteOutcome sb (take n bytes) (sb_write_bytes (some sb) bytes n)
sb_write_bytes-WriteOutcome sb v bytes n given =
    let e : length (take n bytes) ≡ n = omega (arith, length-take n bytes) in
    elim (Bool-cases (leb (sb.len + n) sb.cap)) [
      | inl h ↦
          let fits = leb→le _ _ h in
          subst (WriteOutcome sb (take n bytes)) (sym (write_fits sb v bytes n given fits)) (
            all (written sb v bytes n given) (omega arith) (written-IsValid sb v bytes n given fits)
              (written-contents sb v bytes n given fits) (omega arith) refl)
      | inr h ↦
          let full : sb.cap < sb.len + n = ground (arith, h) in
          subst (WriteOutcome sb (take n bytes)) (sym (write_refused sb v bytes n given full))
            (nothing (omega arith))
    ]

-- A 32-bit number that fits in a valid builder is written so that the four bytes at the old end
-- load it back.
pub sb_write_u32le-load :
    (sb : StringBuilder) (x : ℕ)
    → IsValid sb
    → x < 2 ^ 32
    → sb.len + 4 ≤ sb.cap
    → (sb' : StringBuilder) × (sb_write_u32le (some sb) x ≡ (true, some sb'))
      × (load_u32le (slice sb'.buf sb.len 4) ≡ x)
      × (sb'.len ≡ sb.len + 4)
unfolding sb_write_u32le store_u32le
sb_write_u32le-load sb x v small fits =
    let given : 4 ≤ length (store_u32le x) = omega arith in
    (
      written sb v (store_u32le x) 4 given,
      write_fits sb v (store_u32le x) 4 given fits,
      ap load_u32le (slice-write_at_self sb.buf sb.len (store_u32le x) (omega (arith, v)))
          ∙ load-store_u32le x [] small,
      refl,
    )
