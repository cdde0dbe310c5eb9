-- ===== src/EventQueue/Store.antt =====
-- Appending to the queue: `append_event` alone, and `store_payload`, which first copies a payload.
use zireael.Prelude.{
  ℕ, zero, suc, ◌+◌, ◌%◌, ◌^◌, ◌<◌, ◌≡◌, ◌≢◌, refl, sym, subst, ap, ◌∙◌, List, [], ◌∷◌, ◌++◌,
  length, length-set, set, arith, append-nil,
}
use zireael.Event.{Event, zero_event}
use zireael.UserRing.{UserRing}
use zireael.UserRing.Layout.{Layout, IsRing}
use zireael.EventQueue.{EventQueue, append_event, evq_index}
use zireael.Prelude.Window.{window, window-append}
use zireael.EventQueue.Items.{
  IsArray, IsSound, queued, items, items_of, item_of, slots_of, body_slots, slot_at,
  slots_of-append, items_of-append,
}

-- The soundness of a queue says nothing of the lock and of the counters.
pub IsSound-same :
    {q q' : EventQueue}
    → q'.events ≡ q.events
    → q'.cap ≡ q.cap
    → q'.head ≡ q.head
    → q'.count ≡ q.count
    → q'.ring ≡ q.ring
    → IsSound q
    → IsSound q'
IsSound-same {q} {q'} a b c d e s = record {
  array = record {
    cap_pos = omega (arith, s.array);
    cap_small = omega (arith, s.array);
    storage = omega (arith, s.array, ap length a);
    head_in = omega (arith, s.array);
    count_in = omega (arith, s.array);
  };
  is_ring = rw e s.is_ring;
  layout = rw (a, b, c, d, e) s.layout;
}

-- Below the capacity an event is queued last.
pub queued-append_event :
    (q : EventQueue) (ev : Event)
    → IsArray q
    → q.count ≢ q.cap
    → queued (append_event q ev) ≡ queued q ++ (ev ∷ [])
unfolding append_event
queued-append_event q ev s ne =
    let c : (q.count + 1) % 2 ^ 32 ≡ suc q.count = omega arith in
    let i : evq_index q q.count ≡ (q.head + q.count) % q.cap = ground arith in
    ap (λ k. window zero_event q.cap (set q.events (evq_index q q.count) ev) q.head k) c
    ∙ window-append zero_event q.cap q.events ev q.head q.count (evq_index q q.count) s.storage
        s.head_in (omega arith) i

slots_of-snoc :
    (es : List Event) (ev : Event) → slots_of (es ++ (ev ∷ [])) ≡ slots_of es ++ body_slots ev.body
slots_of-snoc es ev =
    slots_of-append es (ev ∷ []) ∙ ap (λ l. slots_of es ++ l) (append-nil (body_slots ev.body))

append_event-IsArray :
    (q : EventQueue) (ev : Event) → IsArray q → q.count ≢ q.cap → IsArray (append_event q ev)
unfolding append_event
append_event-IsArray q ev s ne = record {
  cap_pos = s.cap_pos;
  cap_small = s.cap_small;
  storage = omega (arith, s.storage, length-set q.events (evq_index q q.count) ev);
  head_in = s.head_in;
  count_in = omega arith;
}

pub append_event-IsSound :
    (q : EventQueue) (ev : Event)
    → IsArray q
    → IsRing q.ring
    → q.count ≢ q.cap
    → Layout q.ring (slots_of (queued q) ++ body_slots ev.body)
    → IsSound (append_event q ev)
append_event-IsSound q ev s v ne l = record {
  array = append_event-IsArray q ev s ne;
  is_ring = unfold append_event in v;
  layout =
      unfold append_event in
      subst (λ es. Layout q.ring (slots_of es)) (sym (queued-append_event q ev s ne))
        (rw (slots_of-snoc (queued q) ev) l);
}

pub items-append_event :
    (q : EventQueue) (ev : Event)
    → IsArray q
    → q.count ≢ q.cap
    → items (append_event q ev) ≡ items q ++ (item_of q.ring.user_bytes ev ∷ [])
items-append_event q ev s ne =
    unfold append_event in
    (ap (items_of q.ring.user_bytes) (queued-append_event q ev s ne)
      ∙ items_of-append q.ring.user_bytes (queued q) (ev ∷ []))

pub IsArray-ring : (q : EventQueue) (r : UserRing) → IsArray q → IsArray (record q { ring = r })
IsArray-ring q r a = omega arith

pub slot_at_pos : (off n : ℕ) → 0 < n → slot_at off n ≡ record { off = off; len = n } ∷ []
slot_at_pos off zero p = absurd (omega arith)
slot_at_pos off (suc n) p = refl
