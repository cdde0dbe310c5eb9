-- ===== src/Base64/Encode.antt =====
-- zr_base64_encode: what it writes decodes to its input.
use zireael.Prelude.{
  is_nil_lem, ℕ, zero, suc, ◌+◌, ◌*◌, ◌/◌, ◌^◌, ◌<◌, ◌≡◌, ◌≢◌, ◌≤◌, refl, sym, ap, ◌∙◌, true,
  Option, none, some, List, [], ◌∷◌, take, ltb, leb, leb→le, ◌==◌, if◌then◌else◌, arith, length,
  Bool-cases, subst, inl, inr,
}
use zireael.Result.{ZrResult, zr_ok, zr_err_limit}
use zireael.Checked.Laws.{checked_add_size_lem, checked_mul_size_lem}
use zireael.Base64.{base64_encoded_size, encode_groups, encode_tail, base64_encode}
use zireael.Base64.Rfc4648.{decode, encode, all_bytes, decode-encode}
use zireael.Base64.Groups.{encode_groups-Looped, encode_tail-Finished}

-- Four characters for every three bytes begun.
abbrev pub need : ℕ → ℕ
need in_len = (in_len + 2) / 3 * 4

base64_encoded_size_lem :
    (n : ℕ)
    → n < 2 ^ 64
    → base64_encoded_size n ≡ (if ltb (need n) (2 ^ 64) then some (need n) else none)
unfolding base64_encoded_size
base64_encoded_size_lem n h =
    ground (arith, checked_add_size_lem n 2 h (omega arith), checked_mul_size_lem ((n + 2) / 3) 4)

take-all_bytes : (xs : List ℕ) (n : ℕ) → all_bytes xs ≡ true → all_bytes (take n xs) ≡ true
take-all_bytes xs zero h = refl
take-all_bytes [] (suc n) h = refl
take-all_bytes (x ∷ xs) (suc n) h = ground (arith, take-all_bytes xs n, h)

pub data EncodeOutcome (src : List ℕ) (in_len : ℕ) (out : List ℕ) (out_cap : ℕ)
    : ZrResult × List ℕ × Option ℕ → Type 0 where
  encoded :
      (out' : List ℕ)
      → need in_len ≤ out_cap
      → length out' ≡ length out
      → decode (take (need in_len) out') ≡ take in_len src
      → EncodeOutcome src in_len out out_cap (zr_ok, out', some (need in_len))
  refused : out_cap < need in_len → EncodeOutcome src in_len out out_cap (zr_err_limit, out, some 0)

module _ (src : List ℕ) (in_len : ℕ) (out : List ℕ) (out_cap : ℕ) (given : in_len ≤ length src)
    (held : out_cap ≤ length out) (in_size : in_len < 2 ^ 64) (out_size : out_cap < 2 ^ 64)
    (bytes : all_bytes src ≡ true) where
  abbrev result : ZrResult × List ℕ × Option ℕ
  result = base64_encode src in_len out out_cap true

  abbrev looped : List ℕ × ℕ × ℕ
  looped = encode_groups in_len src in_len out 0 0

  abbrev finished : List ℕ × ℕ
  finished = encode_tail src in_len looped.0 looped.1 looped.2

  result_refused : out_cap < need in_len → result ≡ (zr_err_limit, out, some 0)
  unfolding base64_encode
  result_refused h =
      ground (arith, base64_encoded_size_lem in_len in_size, is_nil_lem out, is_nil_lem src)

  result_empty : in_len ≡ 0 → result ≡ (zr_ok, out, some 0)
  unfolding base64_encode
  result_empty h =
      ground (arith, base64_encoded_size_lem in_len in_size, is_nil_lem out, is_nil_lem src)

  result_encoded :
      in_len ≢ 0 → need in_len ≤ out_cap → result ≡ (zr_ok, finished.0, some finished.1)
  unfolding base64_encode
  result_encoded p h =
      ground (arith, base64_encoded_size_lem in_len in_size, is_nil_lem out, is_nil_lem src)

  finished-Finished :
      need in_len ≤ out_cap
      → (length finished.0 ≡ length out)
        × (finished.1 ≡ need in_len)
        × (take finished.1 finished.0 ≡ encode (take in_len src))
  finished-Finished h =
      let small : in_len + 3 < 2 ^ 64 = omega arith in
      let a =
        encode_groups-Looped src in_len given small in_len out 0 0 (omega arith) (omega arith)
          (omega arith) in
      let b =
        encode_tail-Finished src in_len given small looped.0 looped.1 looped.2 a.short a.shorter
          (omega (arith, a.place, a.same_length)) in
      (b.same_length ∙ a.same_length, omega (arith, b.place, a.place), b.bytes ∙ a.bytes)

  -- On bytes, with buffers as long as stated and lengths below 2^64, the encoder has one of two
  -- results. Where four characters for every three bytes begun fit in the output, that many are
  -- written, and by RFC 4648 they decode to the input. Where they do not, the result is ZR_ERR_LIMIT,
  -- the length 0, and nothing is written.
  pub base64_encode-EncodeOutcome : EncodeOutcome src in_len out out_cap result
  base64_encode-EncodeOutcome = elim (Bool-cases (leb (need in_len) out_cap)) [
    | inr h ↦
        let full : out_cap < need in_len = ground (arith, h) in
        subst (EncodeOutcome src in_len out out_cap) (sym (result_refused full)) (refused full)
    | inl h ↦
        let fits : need in_len ≤ out_cap = leb→le _ _ h in
        elim (Bool-cases (in_len == 0)) [
          | inl z ↦
              let zero_len : in_len ≡ 0 = ground (arith, z) in
              let none_needed : need in_len ≡ 0 = omega arith in
              subst (EncodeOutcome src in_len out out_cap)
                (ap (λ n. (zr_ok, out, some n)) none_needed ∙ sym (result_empty zero_len))
                (encoded out fits refl
                  (ap (λ n. decode (take n out)) none_needed ∙ sym (ap (λ n. take n src) zero_len)))
          | inr z ↦
              let (l, p, e) = finished-Finished fits in
              subst (EncodeOutcome src in_len out out_cap)
                (ap (λ n. (zr_ok, finished.0, some n)) (sym p)
                  ∙ sym (result_encoded (ground (arith, z)) fits))
                (encoded finished.0 fits l (
                  ap (λ n. decode (take n finished.0)) (sym p)
                  ∙ ap decode e
                  ∙ decode-encode (take in_len src) (take-all_bytes src in_len bytes)))
        ]
  ]
