-- ===== src/EventPack/Decode.antt =====
-- A reader of the batch's records, by their sizes, and the records that it finds.
use zireael.Prelude.{
  ℕ, zero, suc, ◌+◌, ◌-◌, ◌^◌, ◌≤◌, ◌<◌, ◌≡◌, refl, sym, ap, ap₂, ◌∙◌, List, [], ◌∷◌, ◌++◌,
  append_assoc, length, length-append, length-replicate, replicate, take, drop, arith,
}
use zireael.Result.{u32_max}
use zireael.Bytes.{load_u32le, store_u32le}
use zireael.Bytes.Endian.{load-store_u32le}
use zireael.EventPack.Record.{Rec, round4, padded, rec_size_of, encode}

-- The first record: its type, the payload that its size announces, and what follows it.
abbrev pub record_at : List ℕ → Rec × List ℕ
record_at b =
    let size = load_u32le (drop 4 b) in
    (
      record {
        type = load_u32le b;
        time_ms = load_u32le (drop 8 b);
        flags = load_u32le (drop 12 b);
        payload = take (size - 16) (drop 16 b);
      },
      drop size b,
    )

-- The first `n` records.
abbrev pub records : ℕ → List ℕ → List Rec
records zero b = []
records (suc n) b = (record_at b).0 ∷ records n (record_at b).1

drop-store : (v : ℕ) (k : ℕ) (rest : List ℕ) → drop (4 + k) (store_u32le v ++ rest) ≡ drop k rest
unfolding store_u32le
drop-store v k rest = let e : 4 + k ≡ suc (suc (suc (suc k))) = omega arith in rw e refl

take-length_append : (xs ys : List ℕ) (n : ℕ) → n ≡ length xs → take n (xs ++ ys) ≡ xs
take-length_append [] ys zero e = refl
take-length_append [] ys (suc n) e = absurd (omega arith)
take-length_append (x ∷ xs) ys zero e = absurd (omega arith)
take-length_append (x ∷ xs) ys (suc n) e =
    ap (λ l. x ∷ l) (take-length_append xs ys n (omega arith))

pub drop-length_append : (xs ys : List ℕ) (n : ℕ) → n ≡ length xs → drop n (xs ++ ys) ≡ ys
drop-length_append [] ys zero e = refl
drop-length_append [] ys (suc n) e = absurd (omega arith)
drop-length_append (x ∷ xs) ys zero e = absurd (omega arith)
drop-length_append (x ∷ xs) ys (suc n) e = drop-length_append xs ys n (omega arith)

length-padded : (p : List ℕ) → length (padded p) ≡ round4 (length p)
length-padded p = omega (
  arith,
  length-append p (replicate (round4 (length p) - length p) 0),
  length-replicate {A = ℕ} (round4 (length p) - length p) 0,
)

abbrev of_parts : ℕ → ℕ → ℕ → List ℕ → List ℕ → Rec × List ℕ
of_parts a b c l r = (record { type = a; time_ms = b; flags = c; payload = l }, r)

module _ (type time_ms flags : ℕ) (p rest : List ℕ) (t : type < 2 ^ 32) (m : time_ms < 2 ^ 32)
    (f : flags < 2 ^ 32) (small : rec_size_of p ≤ u32_max) where
  abbrev body : List ℕ
  body = padded p ++ rest

  abbrev s3 : List ℕ
  s3 = store_u32le flags ++ body

  abbrev s2 : List ℕ
  s2 = store_u32le time_ms ++ s3

  abbrev s1 : List ℕ
  s1 = store_u32le (rec_size_of p) ++ s2

  abbrev s0 : List ℕ
  s0 = store_u32le type ++ s1

  -- The encoded record in front of what follows it.
  split : encode type time_ms flags p ++ rest ≡ s0
  split =
      append_assoc (store_u32le type) _ rest
      ∙ ap (λ l. store_u32le type ++ l)
          (append_assoc (store_u32le (rec_size_of p)) _ rest
            ∙ ap (λ l. store_u32le (rec_size_of p) ++ l)
                (append_assoc (store_u32le time_ms) _ rest
                  ∙ ap (λ l. store_u32le time_ms ++ l)
                      (append_assoc (store_u32le flags) (padded p) rest)))

  drop_4 : drop 4 s0 ≡ s1
  drop_4 = drop-store type 0 s1

  drop_8 : drop 8 s0 ≡ s2
  drop_8 = drop-store type 4 s1 ∙ drop-store (rec_size_of p) 0 s2

  drop_12 : drop 12 s0 ≡ s3
  drop_12 = drop-store type 8 s1 ∙ drop-store (rec_size_of p) 4 s2 ∙ drop-store time_ms 0 s3

  drop_16 : (k : ℕ) → drop (16 + k) s0 ≡ drop k body
  drop_16 k =
      ap (λ n. drop n s0) (omega arith)
      ∙ drop-store type (12 + k) s1
      ∙ ap (λ n. drop n s1) (omega arith)
      ∙ drop-store (rec_size_of p) (8 + k) s2
      ∙ ap (λ n. drop n s2) (omega arith)
      ∙ drop-store time_ms (4 + k) s3
      ∙ drop-store flags k body

  abbrev decoded : Rec
  decoded = record { type = type; time_ms = time_ms; flags = flags; payload = padded p }

  size_read : load_u32le (drop 4 s0) ≡ rec_size_of p
  size_read = ap load_u32le drop_4 ∙ load-store_u32le (rec_size_of p) s2 (omega arith)

  payload_read : take (rec_size_of p - 16) (drop 16 s0) ≡ padded p
  payload_read =
      ap (take (rec_size_of p - 16)) (drop_16 0)
      ∙ take-length_append (padded p) rest (rec_size_of p - 16) (omega (arith, length-padded p))

  rest_read : drop (rec_size_of p) s0 ≡ rest
  rest_read =
      drop_16 (round4 (length p))
      ∙ drop-length_append (padded p) rest (round4 (length p)) (sym (length-padded p))

  type_read : load_u32le s0 ≡ type
  type_read = load-store_u32le type s1 t

  time_read : load_u32le (drop 8 s0) ≡ time_ms
  time_read = ap load_u32le drop_8 ∙ load-store_u32le time_ms s3 m

  flags_read : load_u32le (drop 12 s0) ≡ flags
  flags_read = ap load_u32le drop_12 ∙ load-store_u32le flags body f

  read : record_at s0 ≡ (decoded, rest)
  read =
      ap
        (λ n.
          of_parts (load_u32le s0) (load_u32le (drop 8 s0)) (load_u32le (drop 12 s0))
            (take (n - 16) (drop 16 s0)) (drop n s0))
        size_read
      ∙ ap
          (λ a.
            of_parts a (load_u32le (drop 8 s0)) (load_u32le (drop 12 s0))
              (take (rec_size_of p - 16) (drop 16 s0)) (drop (rec_size_of p) s0))
          type_read
      ∙ ap
          (λ b.
            of_parts type b (load_u32le (drop 12 s0)) (take (rec_size_of p - 16) (drop 16 s0))
              (drop (rec_size_of p) s0))
          time_read
      ∙ ap
          (λ c.
            of_parts type time_ms c (take (rec_size_of p - 16) (drop 16 s0))
              (drop (rec_size_of p) s0))
          flags_read
      ∙ ap₂ (of_parts type time_ms flags) payload_read rest_read

  pub record_at-encode : record_at (encode type time_ms flags p ++ rest) ≡ (decoded, rest)
  record_at-encode = ap record_at split ∙ read
