-- ===== src/EventQueue/Replace.antt =====
-- Coalescing on the items: the array write is `Spec.replace_last`.
use zireael.Prelude.{
  ℕ, zero, suc, ◌<◌, ◌≡◌, refl, sym, subst, ap, ◌∙◌, inl, inr, Bool, true, false, List, [], ◌∷◌,
  ◌++◌, set, length-set, arith, none, some, Option-cases,
}
use zireael.Event.{
  Event, EventBody, invalid, key, text, paste, mouse, resize, tick, user, zero_event,
}
use zireael.UserRing.Layout.{Layout}
use zireael.EventQueue.{EventQueue, try_coalesce_locked, evq_index}
use zireael.Prelude.Window.{window-set, length-window}
use zireael.EventQueue.Items.{
  IsSound, queued, items, items_of, item_of, slots_of, body_slots, slot_at, Item, placeless,
  payload_in,
}
use zireael.EventQueue.Spec.{coalesces, replace_last}
use zireael.EventQueue.Coalesce.{
  last_match, kind_of, outcome, replaced, try_coalesce-outcome, last_match_lt, index_mod,
}

coalesces-placeless : (b c : EventBody) → coalesces b (placeless c) ≡ coalesces b c
coalesces-placeless b (user u) = refl
coalesces-placeless b (paste p) = refl
coalesces-placeless b invalid = refl
coalesces-placeless b (key k) = refl
coalesces-placeless b (text t) = refl
coalesces-placeless b (mouse m) = refl
coalesces-placeless b (resize z) = refl
coalesces-placeless b (tick t) = refl

-- An event that coalesces with another owns no payload.
coalesces_slots : (b c : EventBody) → coalesces b c ≡ true → body_slots c ≡ []
coalesces_slots b (user u) e = ground arith
coalesces_slots b (paste p) e = ground arith
coalesces_slots b invalid e = refl
coalesces_slots b (key k) e = refl
coalesces_slots b (text t) e = refl
coalesces_slots b (mouse m) e = refl
coalesces_slots b (resize z) e = refl
coalesces_slots b (tick t) e = refl

slot_free : (off n : ℕ) → slot_at off n ≡ [] → n ≡ 0
slot_free off zero e = refl
slot_free off (suc n) e = cc

-- Such an event has no bytes, wherever they are looked for.
pub item_of_payloadless :
    (buf : List ℕ) (ev : Event) → body_slots ev.body ≡ [] → item_of buf ev ≡ item_of [] ev
item_of_payloadless buf ev h = ap (λ b. record (item_of buf ev) { bytes = b }) (bytes_of ev.body h)
  where
    bytes_of : (b : EventBody) → body_slots b ≡ [] → payload_in buf b ≡ payload_in [] b
    bytes_of (user u) e = let z : u.byte_len ≡ 0 = slot_free u.payload_off u.byte_len e in rw z
    bytes_of (paste p) e = let z : p.byte_len ≡ 0 = slot_free p.payload_off p.byte_len e in rw z
    bytes_of invalid e = refl
    bytes_of (key k) e = refl
    bytes_of (text t) e = refl
    bytes_of (mouse m) e = refl
    bytes_of (resize z) e = refl
    bytes_of (tick t) e = refl

replace_last-none :
    (ev : Event) (x : Item) (buf : List ℕ) (es : List Event)
    → ((b : EventBody) → coalesces x.body (placeless b) ≡ coalesces ev.body b)
    → last_match (kind_of ev) es ≡ none
    → replace_last x (items_of buf es) ≡ none
unfolding replace_last
replace_last-none ev x buf [] c e = refl
replace_last-none ev x buf (y ∷ es) c e = elim (Option-cases (last_match (kind_of ev) es)) [
  | inl z ↦ ground (arith, z, c y.body, replace_last-none ev x buf es c z)
  | inr (j, z) ↦ ground (arith, z)
]

replace_last-some :
    (ev : Event) (x : Item) (buf : List ℕ) (es : List Event) (k : ℕ)
    → ((b : EventBody) → coalesces x.body (placeless b) ≡ coalesces ev.body b)
    → last_match (kind_of ev) es ≡ some k
    → replace_last x (items_of buf es) ≡ some (set (items_of buf es) k x)
unfolding replace_last
replace_last-some ev x buf [] k c e = cc
replace_last-some ev x buf (y ∷ es) k c e = elim (Option-cases (last_match (kind_of ev) es)) [
  | inl z ↦ ground (arith, z, c y.body, replace_last-none ev x buf es c z)
  | inr (j, z) ↦ ground (arith, z, replace_last-some ev x buf es j c z)
]

items_of-set :
    (buf : List ℕ) (es : List Event) (k : ℕ) (ev : Event)
    → items_of buf (set es k ev) ≡ set (items_of buf es) k (item_of buf ev)
items_of-set buf [] k ev = refl
items_of-set buf (e ∷ es) zero ev = refl
items_of-set buf (e ∷ es) (suc k) ev = ap (λ l. item_of buf e ∷ l) (items_of-set buf es k ev)

slots_of-set :
    (ev : Event) (es : List Event) (k : ℕ)
    → body_slots ev.body ≡ []
    → last_match (kind_of ev) es ≡ some k
    → slots_of (set es k ev) ≡ slots_of es
slots_of-set ev [] k h e = refl
slots_of-set ev (y ∷ es) zero h e = elim (Option-cases (last_match (kind_of ev) es)) [
  | inl z ↦
      let hit : coalesces ev.body y.body ≡ true = ground (arith, z) in
      rw (h, coalesces_slots ev.body y.body hit)
  | inr (j, z) ↦ absurd (ground (arith, z))
]
slots_of-set ev (y ∷ es) (suc k) h e = elim (Option-cases (last_match (kind_of ev) es)) [
  | inl z ↦ absurd (ground (arith, z))
  | inr (j, z) ↦
      let same : j ≡ k = ground (arith, z) in
      ap (λ l. body_slots y.body ++ l) (slots_of-set ev es k h (z ∙ ap some same))
]

same_kind : (b c : EventBody) → coalesces (placeless b) (placeless c) ≡ coalesces b c
same_kind (user u) c = refl
same_kind (paste p) c = refl
same_kind invalid c = refl
same_kind (key k) c = refl
same_kind (text t) c = refl
same_kind (mouse m) c = coalesces-placeless (mouse m) c
same_kind (resize z) c = coalesces-placeless (resize z) c
same_kind (tick t) c = refl

-- What coalescing does: nothing, or the replacement on the items.
pub data Coalesced (q : EventQueue) (ev : Event) (out : Bool × EventQueue) : Type 0 where
  missed : out ≡ (false, q) → replace_last (item_of [] ev) (items q) ≡ none → Coalesced q ev out
  hit :
      out.0 ≡ true
      → IsSound out.1
      → replace_last (item_of [] ev) (items q) ≡ some (items out.1)
      → Coalesced q ev out

module _ (q : EventQueue) (ev : Event) (s : IsSound q) (h : body_slots ev.body ≡ []) where
  replaced_hit :
      (k : ℕ) → last_match (kind_of ev) (queued q) ≡ some k → Coalesced q ev (true, replaced q ev k)
  replaced_hit k z =
      let lt : k < q.count = omega (
        arith,
        last_match_lt (kind_of ev) (queued q) k z,
        length-window zero_event q.cap q.events q.head q.count,
      ) in
      let q' = replaced q ev k in
      let moved : queued q' ≡ set (queued q) k ev =
        window-set zero_event q.cap q.events ev q.head q.count k (evq_index q k) s.array.storage
          s.array.head_in s.array.count_in lt (index_mod q k s.array (omega arith)) in
      let buf = q.ring.user_bytes in
      let its : items q' ≡ set (items q) k (item_of [] ev) =
        ap (items_of buf) moved
        ∙ items_of-set buf (queued q) k ev
        ∙ ap (set (items q) k) (item_of_payloadless buf ev h) in
      hit refl
        (record {
          array = record {
            cap_pos = s.array.cap_pos;
            cap_small = s.array.cap_small;
            storage = omega (arith, s.array, length-set q.events (evq_index q k) ev);
            head_in = s.array.head_in;
            count_in = s.array.count_in;
          };
          is_ring = s.is_ring;
          layout =
              subst (λ ss. Layout q.ring ss)
                (sym (ap slots_of moved ∙ slots_of-set ev (queued q) k h z)) s.layout;
        })
        (replace_last-some ev (item_of [] ev) buf (queued q) k (same_kind ev.body) z
          ∙ ap some (sym its))

  pub try_coalesce-Coalesced : Coalesced q ev (try_coalesce_locked q ev)
  try_coalesce-Coalesced = elim (Option-cases (last_match (kind_of ev) (queued q))) [
    | inl z ↦
        missed (try_coalesce-outcome q ev s.array ∙ ap (outcome q ev) z)
          (replace_last-none ev (item_of [] ev) q.ring.user_bytes (queued q) (same_kind ev.body) z)
    | inr (k, z) ↦
        subst (λ out. Coalesced q ev out)
          (sym (try_coalesce-outcome q ev s.array ∙ ap (outcome q ev) z)) (replaced_hit k z)
  ]
