-- ===== src/EventPack/Prefix.antt =====
-- Several appends in a row: the batch holds the records of a prefix of the events.
use zireael.Prelude.{
  ℕ, suc, ◌+◌, ◌%◌, ◌^◌, ◌≤◌, ◌<◌, ◌≡◌, refl, sym, ap, ◌∙◌, ◌⊎◌, inl, inr, Bool, true, false,
  Option, none, some, List, [], ◌∷◌, ◌++◌, append_assoc, append-nil, length, length-append, take,
  drop, bit_or, ap₂, arith,
}
use zireael.EventPack.{EvpackWriter, ev_batch_truncated, evpack_append_record2}
use zireael.EventPack.Record.{encode}
use zireael.EventPack.Append.{contents, IsBuffer}
use zireael.EventPack.Batch.{Recorded}
use zireael.EventPack.Atomic.{
  Refused, NoRoom, RecordOutcome, whole, nothing, evpack_append_record2-RecordOutcome,
}

-- The arguments of one append.
pub record Request : Type 0 where
  pub type : ℕ
  pub time_ms : ℕ
  pub flags : ℕ
  pub p1 : List ℕ
  pub n1 : ℕ
  pub p2 : List ℕ
  pub n2 : ℕ

pub record IsRequest (r : Request) : Type 0 where
  pub given1 : r.n1 ≤ length r.p1
  pub given2 : r.n2 ≤ length r.p2
  pub small1 : r.n1 < 2 ^ 64
  pub small2 : r.n2 < 2 ^ 64

abbrev pub AllRequests : List Request → Type 0
AllRequests [] = Unit {0}
AllRequests (r ∷ rs) = IsRequest r × AllRequests rs

abbrev pub encode_request : Request → List ℕ
encode_request r = encode r.type r.time_ms r.flags (take r.n1 r.p1 ++ take r.n2 r.p2)

abbrev pub encode_all : List Request → List ℕ
encode_all [] = []
encode_all (r ∷ rs) = encode_request r ++ encode_all rs

abbrev pub append_result : EvpackWriter → Request → Bool × Option EvpackWriter
append_result w r = evpack_append_record2 (some w) r.type r.time_ms r.flags r.p1 r.n1 r.p2 r.n2

abbrev writer_or : EvpackWriter → Bool × Option EvpackWriter → EvpackWriter
writer_or w (done, none) = w
writer_or w (done, some w') = w'

-- The writer after the appends of a list of events, each tried in turn.
abbrev pub append_all : EvpackWriter → List Request → EvpackWriter
append_all w [] = w
append_all w (r ∷ rs) = append_all (writer_or w (append_result w r)) rs

-- The writer takes records, inside its buffer.
pub record IsOpen (w : EvpackWriter) : Type 0 where
  pub buffer : IsBuffer w
  pub begun : w.started ≡ true
  pub counted : w.event_count < 2 ^ 32

-- An append that changes nothing but the mark, for want of room.
abbrev Turned : EvpackWriter → Request → EvpackWriter → Type 0
Turned w r w' = NoRoom w (r.n1 + r.n2) × Refused w w'

of_outcome :
    (w : EvpackWriter) (r : Request) (res : Bool × Option EvpackWriter)
    → RecordOutcome w r.type r.time_ms r.flags r.p1 r.n1 r.p2 r.n2 res
    → Recorded w (encode_request r) (writer_or w res) ⊎ Turned w r (writer_or w res)
of_outcome w r _ (whole w' a b rec) = inl rec
of_outcome w r _ (nothing w' h same) = inr (h, same)

append_cases :
    (w : EvpackWriter) (r : Request)
    → IsOpen w
    → IsRequest r
    → w.truncated ≡ false
    → Recorded w (encode_request r) (writer_or w (append_result w r))
      ⊎ Turned w r (writer_or w (append_result w r))
append_cases w r o q e = of_outcome w r (append_result w r) (
    evpack_append_record2-RecordOutcome w r.type r.time_ms r.flags r.p1 r.n1 r.p2 r.n2 o.buffer
      q.given1 q.given2 q.small1 q.small2 o.begun e)

stuck_once :
    (w : EvpackWriter) (r : Request)
    → w.started ≡ true
    → w.truncated ≡ true
    → append_result w r ≡ (false, some w)
unfolding evpack_append_record2
stuck_once w r s t = ground (arith, s, t)

stuck :
    (w : EvpackWriter) (rs : List Request)
    → w.started ≡ true
    → w.truncated ≡ true
    → append_all w rs ≡ w
stuck w [] s t = refl
stuck w (r ∷ rs) s t =
    ap (λ res. append_all (writer_or w res) rs) (stuck_once w r s t) ∙ stuck w rs s t

-- The first of some events finds no room in a batch.
pub data FirstRefused (w : EvpackWriter) : List Request → Type 0 where
  first_refused :
      (r : Request) (rs : List Request) → NoRoom w (r.n1 + r.n2) → FirstRefused w (r ∷ rs)

-- All the events are in the batch, or only the first `kept` of them, where the next found no room and
-- the batch is marked.
abbrev pub Ends : EvpackWriter → List Request → ℕ → EvpackWriter → Type 0
Ends w rs kept w' =
    ((kept ≡ length rs) × (w'.truncated ≡ false) × (w'.batch_flags ≡ w.batch_flags))
    ⊎ ((kept < length rs)
        × (w'.truncated ≡ true)
        × (w'.batch_flags ≡ bit_or w.batch_flags ev_batch_truncated)
        × FirstRefused w' (drop kept rs))

-- The first `kept` events are in the batch, whole and in order.
pub record PrefixOf (w : EvpackWriter) (rs : List Request) (w' : EvpackWriter) : Type 0 where
  pub kept : ℕ
  pub bytes : contents w' ≡ contents w ++ encode_all (take kept rs)
  pub len_eq : w'.len ≡ w.len + length (encode_all (take kept rs))
  pub counted : w'.event_count ≡ (w.event_count + kept) % 2 ^ 32
  pub ends : Ends w rs kept w'
  pub buffer : IsBuffer w'

none_kept :
    (w w' : EvpackWriter) (r : Request) (rs : List Request)
    → IsOpen w
    → Turned w r w'
    → PrefixOf w (r ∷ rs) (append_all w' rs)
none_kept w w' r rs o (h, s) = rw (stuck w' rs (s.same_started ∙ o.begun) s.marked) (record {
  kept = 0;
  bytes = ap₂ take s.same_len s.same_buf ∙ sym (append-nil (contents w));
  len_eq = omega (arith, s.same_len);
  counted = omega (arith, o.counted, s.same_count);
  ends = inr (
    omega arith,
    s.marked,
    s.flagged,
    first_refused r rs (ground (arith, h, s.same_cap, s.same_len)),
  );
  buffer = record {
    held = omega (arith, o.buffer.held, s.same_cap, ap length s.same_buf);
    size = omega (arith, o.buffer.size, s.same_cap);
    inside = omega (arith, o.buffer.inside, s.same_cap, s.same_len);
  };
})

-- The events of a list are appended one after another to an open, untruncated batch, each with
-- payload pieces as long as stated and lengths below 2^64. The batch then holds the encoded records
-- of the first events of the list, each one whole, and counts them; either these are all and the
-- flags stay, or the next event finds no room and the batch is marked TRUNCATED: after the first
-- that did not fit, none is taken.
pub append_all-PrefixOf :
    (w : EvpackWriter) (rs : List Request)
    → IsOpen w
    → AllRequests rs
    → w.truncated ≡ false
    → PrefixOf w rs (append_all w rs)
append_all-PrefixOf w [] o q e = record {
  kept = 0;
  bytes = sym (append-nil (contents w));
  len_eq = omega arith;
  counted = omega (arith, o.counted);
  ends = inl (refl, e, refl);
  buffer = o.buffer;
}
append_all-PrefixOf w (r ∷ rs) o (q, qs) e = elim (append_cases w r o q e) [
  | inr s ↦ none_kept w (writer_or w (append_result w r)) r rs o s
  | inl rec ↦
      let w' = writer_or w (append_result w r) in
      let rest =
        append_all-PrefixOf w' rs
          (record {
            buffer = rec.buffer;
            begun = rec.same_started ∙ o.begun;
            counted = omega (arith, rec.counted);
          })
          qs (rec.same_truncated ∙ e) in
      record {
        kept = suc rest.kept;
        bytes =
            rest.bytes
            ∙ ap (λ l. l ++ encode_all (take rest.kept rs)) rec.longer
            ∙ append_assoc (contents w) (encode_request r) (encode_all (take rest.kept rs));
        len_eq = omega (
          arith,
          rest.len_eq,
          rec.len_eq,
          length-append (encode_request r) (encode_all (take rest.kept rs)),
        );
        counted = omega (arith, rest.counted, rec.counted);
        ends = elim rest.ends [
          | inl (k, t, f) ↦ inl (ap suc k, t, f ∙ rec.same_flags)
          | inr (k, t, f, full) ↦
              inr (
                omega (arith, k),
                t,
                f ∙ ap (λ b. bit_or b ev_batch_truncated) rec.same_flags,
                full,
              )
        ];
        buffer = rest.buffer;
      }
]
