-- ===== src/EventPack/RoundTrip.antt =====
-- A reader of the batch finds the events that were appended.
use zireael.Prelude.{
  ℕ, zero, suc, ◌+◌, ◌%◌, ◌^◌, ◌≤◌, ◌<◌, ◌≡◌, refl, sym, ap, ◌∙◌, false, List, [], ◌∷◌, ◌++◌, map,
  length, length-take, take, drop, arith,
}
use zireael.Result.{u32_max}
use zireael.EventPack.{EvpackWriter}
use zireael.EventPack.Record.{Rec, padded, rec_size_of}
use zireael.EventPack.Append.{contents}
use zireael.EventPack.Decode.{records, record_at-encode, drop-length_append}
use zireael.EventPack.Prefix.{
  Request, AllRequests, encode_all, append_all, IsOpen, Ends, PrefixOf, append_all-PrefixOf,
}

-- The numbers of an event fit their fields, and so does the size of its record.
pub record Fits (r : Request) : Type 0 where
  pub type_small : r.type < 2 ^ 32
  pub time_small : r.time_ms < 2 ^ 32
  pub flags_small : r.flags < 2 ^ 32
  pub size_small : rec_size_of (take r.n1 r.p1 ++ take r.n2 r.p2) ≤ u32_max

abbrev pub AllFit : List Request → Type 0
AllFit [] = Unit {0}
AllFit (r ∷ rs) = Fits r × AllFit rs

-- What a reader is to find: the numbers, and the payload with its padding.
abbrev pub rec_of : Request → Rec
rec_of r = record {
  type = r.type;
  time_ms = r.time_ms;
  flags = r.flags;
  payload = padded (take r.n1 r.p1 ++ take r.n2 r.p2);
}

take-AllFit : (k : ℕ) (rs : List Request) → AllFit rs → AllFit (take k rs)
take-AllFit zero rs h = tt
take-AllFit (suc k) [] h = tt
take-AllFit (suc k) (r ∷ rs) (f, fs) = (f, take-AllFit k rs fs)

records-encode_all :
    (rs : List Request) (n : ℕ)
    → n ≡ length rs
    → AllFit rs
    → records n (encode_all rs) ≡ map rec_of rs
records-encode_all [] zero e h = refl
records-encode_all [] (suc n) e h = absurd (omega arith)
records-encode_all (r ∷ rs) zero e h = absurd (omega arith)
records-encode_all (r ∷ rs) (suc n) e (f, fs) =
    let first =
      record_at-encode r.type r.time_ms r.flags (take r.n1 r.p1 ++ take r.n2 r.p2) (encode_all rs)
        f.type_small f.time_small f.flags_small f.size_small in
    ap (λ p. p.0 ∷ records n p.1) first
    ∙ ap (λ l. rec_of r ∷ l) (records-encode_all rs n (omega arith) fs)

take-length_append : (xs ys : List ℕ) (n : ℕ) → n ≡ length xs → take n (xs ++ ys) ≡ xs
take-length_append [] ys zero e = refl
take-length_append [] ys (suc n) e = absurd (omega arith)
take-length_append (x ∷ xs) ys zero e = absurd (omega arith)
take-length_append (x ∷ xs) ys (suc n) e =
    ap (λ l. x ∷ l) (take-length_append xs ys n (omega arith))

kept-length : (w w' : EvpackWriter) (rs : List Request) (p : PrefixOf w rs w') → p.kept ≤ length rs
kept-length w w' rs p = omega (arith, p.ends)

-- What a reader and the writer's own fields say of a batch after some appends.
pub record Delivered (w : EvpackWriter) (rs : List Request) (w' : EvpackWriter) : Type 0 where
  pub kept : ℕ
  pub old : take w.len (contents w') ≡ contents w
  pub found : records kept (drop w.len (contents w')) ≡ map rec_of (take kept rs)
  pub len_eq : w'.len ≡ w.len + length (encode_all (take kept rs))
  pub counted : w'.event_count ≡ (w.event_count + kept) % 2 ^ 32
  pub ends : Ends w rs kept w'

-- The events of a list are appended to an open, untruncated batch, each with payload pieces as long
-- as stated and numbers that fit their fields. The old bytes of the batch stay. A reader that goes
-- by the sizes in the records, from the old end of the batch on, finds the first events of the list
-- in order, with their padded payloads; the batch ends with the last of them, and its count has
-- grown by their number (modulo 2^32). Either these are all the events, and the flags stay, or the
-- next event has no room behind them, and the batch is marked: `truncated` and the flag
-- ZR_EV_BATCH_TRUNCATED are set.
pub append_all-records :
    (w : EvpackWriter) (rs : List Request)
    → IsOpen w
    → AllRequests rs
    → AllFit rs
    → w.truncated ≡ false
    → Delivered w rs (append_all w rs)
append_all-records w rs o q f e =
    let p = append_all-PrefixOf w rs o q e in
    let old : w.len ≡ length (contents w) = omega (arith, length-take w.len w.out_buf, o.buffer) in
    let all : length (take p.kept rs) ≡ p.kept =
      omega (arith, length-take p.kept rs, kept-length w _ rs p) in
    record {
      kept = p.kept;
      old =
          ap (take w.len) p.bytes
          ∙ take-length_append (contents w) (encode_all (take p.kept rs)) w.len old;
      found =
          ap (λ b. records p.kept (drop w.len b)) p.bytes
          ∙ ap (records p.kept)
              (drop-length_append (contents w) (encode_all (take p.kept rs)) w.len old)
          ∙ records-encode_all (take p.kept rs) p.kept (sym all) (take-AllFit p.kept rs f);
      len_eq = p.len_eq;
      counted = p.counted;
      ends = p.ends;
    }
