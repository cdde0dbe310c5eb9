-- ===== src/EventQueue/Pop.antt =====
-- zr_event_queue_pop, peek, count and the payload views: reading a queue in order.
use zireael.Prelude.{
  ℕ, zero, suc, ◌-◌, ◌%◌, ◌≡◌, ◌≢◌, refl, sym, ap, ◌⊎◌, inl, inr, true, List, [], ◌∷◌, ◌++◌, length,
  arith, Option, none, some,
}
use zireael.Prelude.Buffer.{slice}
use zireael.Event.{
  Event, EventBody, invalid, key, text, paste, mouse, resize, tick, user, zero_event,
}
use zireael.UserRing.{UserRing, add_u32, sub_u32}
use zireael.UserRing.Layout.{Slot, Layout, IsRing, Within, flat, wrapped, Chain-Within, Within-mono}
use zireael.EventQueue.{EventQueue, evq_lock, evq_unlock, event_at, free_payload}
use zireael.EventQueue.Api.{
  pop_given, event_queue_peek, event_queue_count, view_range, user_view, paste_view,
}
use zireael.Prelude.Window.{window}
use zireael.EventQueue.Store.{IsSound-same}
use zireael.EventQueue.Items.{
  IsValid, queued, items, items_of, item_of, slots_of, body_slots, slot_at, payload_in,
}
use zireael.EventQueue.Remove.{Removed, removed}
use zireael.EventQueue.Push.{is_nil_of_pos, IsArray-ready, length-items}

-- The queue after a pop, before the lock is released.
abbrev popped : EventQueue → EventQueue
popped q = record (evq_lock q) {
  head = add_u32 q.head 1 % q.cap;
  count = sub_u32 q.count 1;
  ring = free_payload (event_at q q.head).body q.ring;
}

module _ (q : EventQueue) (v : IsValid q) where
  pop_cases :
      ((q.count ≡ 0) × (pop_given q ≡ (none, evq_unlock (evq_lock q))))
      ⊎ ((q.count ≢ 0) × (pop_given q ≡ (some (event_at q q.head), evq_unlock (popped q))))
  unfolding pop_given
  pop_cases = ground (arith, IsArray-ready q v.sound.array)

  popped-Removed : q.count ≢ 0 → Removed q (evq_unlock (popped q))
  popped-Removed ne = removed q (evq_unlock (popped q)) v.sound ne refl refl refl refl refl

  empty : q.count ≡ 0 → items q ≡ []
  empty z = ap (λ k. items_of q.ring.user_bytes (window zero_event q.cap q.events q.head k)) z

  -- On a valid queue, a pop into a given event keeps the queue valid. It returns the oldest event and
  -- leaves the others with their payloads, or it returns nothing, from an empty queue that stays as
  -- it is.
  pub pop_given-first :
      IsValid (pop_given q).1
      × (let (out, q') = pop_given q in
          ((out ≡ none) × (items q ≡ []) × (q' ≡ q))
          ⊎ ((ev : Event) × (out ≡ some ev) × (items q ≡ item_of q.ring.user_bytes ev ∷ items q')))
  pop_given-first = elim pop_cases [
    | inl (z, e) ↦ rw e (
      record { unlocked = refl; sound = IsSound-same refl refl refl refl refl v.sound },
      inl (refl, empty z, λ i. record q { lock = sym v.unlocked i }),
    )
    | inr (ne, e) ↦
        let r = popped-Removed ne in
        rw e (record { unlocked = refl; sound = r.sound }, inr (event_at q q.head, refl, r.first))
  ]

  -- On a valid queue, a peek shows what a pop would return.
  pub peek-pop : event_queue_peek (some q) true ≡ (pop_given q).0
  unfolding event_queue_peek pop_given
  peek-pop = ground arith

  -- On a valid queue, the count is the number of queued events.
  pub count-items : event_queue_count (some q) ≡ length (items q)
  unfolding event_queue_count
  count-items = ground (arith, IsArray-ready q v.sound.array, length-items q)

Within-append :
    (a b : ℕ) (ss ts : List Slot) → Within a b ss → Within a b ts → Within a b (ss ++ ts)
Within-append a b [] ts h k = k
Within-append a b (s ∷ ss) ts (p, q, h) k = (p, q, Within-append a b ss ts h k)

-- Every slot of a layout lies inside the storage.
Layout-Within : (r : UserRing) (ss : List Slot) → Layout r ss → Within 0 r.user_bytes_cap ss
Layout-Within r ss (flat f) =
    Within-mono r.user_head 0 r.user_tail r.user_bytes_cap ss (omega arith) f.tail_in
      (Chain-Within r.user_head ss r.user_tail f.chain)
Layout-Within r ss (wrapped front back e f) = rw e (
    Within-append 0 r.user_bytes_cap front back
      (Within-mono r.user_head 0 (r.user_bytes_cap - r.user_pad_end) r.user_bytes_cap front
        (omega arith) (omega arith) (Chain-Within _ front _ f.older))
      (Within-mono 0 0 r.user_tail r.user_bytes_cap back (omega arith) (omega arith)
        (Chain-Within 0 back r.user_tail f.newer)))

-- The view that fits the type of an event; for an event with no payload there is none to ask for.
abbrev pub payload_view : UserRing → EventBody → Option (List ℕ)
payload_view r (user u) = user_view r (user u)
payload_view r (paste p) = paste_view r (paste p)
payload_view r _ = some []

-- The views of all the events return their payloads.
abbrev pub AllViewed : UserRing → List Event → Type 0
AllViewed r [] = Unit {0}
AllViewed r (e ∷ es) =
    (payload_view r e.body ≡ some (payload_in r.user_bytes e.body)) × AllViewed r es

view_range_inside :
    (r : UserRing) (off n : ℕ) (rest : List Slot)
    → IsRing r
    → Within 0 r.user_bytes_cap (slot_at off n ++ rest)
    → view_range r off n ≡ some (slice r.user_bytes off n)
unfolding view_range
view_range_inside r off zero rest v w = refl
view_range_inside r off (suc n) rest v w =
    ground (arith, is_nil_of_pos r.user_bytes (omega arith), w.1)

body_viewed :
    (r : UserRing) (b : EventBody) (rest : List Slot)
    → IsRing r
    → Within 0 r.user_bytes_cap (body_slots b ++ rest)
    → payload_view r b ≡ some (payload_in r.user_bytes b)
unfolding user_view paste_view
body_viewed r (user u) rest v w = view_range_inside r u.payload_off u.byte_len rest v w
body_viewed r (paste p) rest v w = view_range_inside r p.payload_off p.byte_len rest v w
body_viewed r invalid rest v w = refl
body_viewed r (key k) rest v w = refl
body_viewed r (text t) rest v w = refl
body_viewed r (mouse m) rest v w = refl
body_viewed r (resize z) rest v w = refl
body_viewed r (tick t) rest v w = refl

Within-tail : (a b : ℕ) (ss ts : List Slot) → Within a b (ss ++ ts) → Within a b ts
Within-tail a b [] ts h = h
Within-tail a b (s ∷ ss) ts (p, q, h) = Within-tail a b ss ts h

Within-AllViewed :
    (r : UserRing) (es : List Event)
    → IsRing r
    → Within 0 r.user_bytes_cap (slots_of es)
    → AllViewed r es
Within-AllViewed r [] v w = tt
Within-AllViewed r (e ∷ es) v w = (
  body_viewed r e.body (slots_of es) v w,
  Within-AllViewed r es v (Within-tail 0 r.user_bytes_cap (body_slots e.body) (slots_of es) w),
)

-- In a valid queue the payload view of its kind succeeds for every queued user or paste event, and
-- returns the event's bytes.
pub IsValid-AllViewed : (q : EventQueue) → IsValid q → AllViewed q.ring (queued q)
IsValid-AllViewed q v =
    Within-AllViewed q.ring (queued q) v.sound.is_ring
      (Layout-Within q.ring (slots_of (queued q)) v.sound.layout)
