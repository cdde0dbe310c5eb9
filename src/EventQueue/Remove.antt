-- ===== src/EventQueue/Remove.antt =====
-- Taking the oldest event out: `zr_event_queue_pop`, and the drop of a full queue.
use zireael.Prelude.{
  ℕ, zero, suc, ◌+◌, ◌-◌, ◌%◌, ◌≡◌, ◌≢◌, refl, sym, subst, ap, ◌∙◌, List, ◌∷◌, ◌++◌, length, arith,
}
use zireael.Event.{EventBody, invalid, key, text, paste, mouse, resize, tick, user, zero_event}
use zireael.UserRing.{UserRing, user_free_head, add_u32, sub_u32}
use zireael.UserRing.Layout.{Slot, Layout, IsRing}
use zireael.UserRing.Free.{Freed, user_free_head-Freed}
use zireael.EventQueue.{EventQueue, drop_head_locked, event_at, free_payload}
use zireael.Prelude.Window.{window_step}
use zireael.EventQueue.Items.{
  IsSound, queued, items, items_of, item_of, slots_of, body_slots, slot_at,
}

-- Freeing the payload of the oldest event.
record FreedFor (r r' : UserRing) (ss : List Slot) : Type 0 where
  layout : Layout r' ss
  same_bytes : r'.user_bytes ≡ r.user_bytes
  same_cap : r'.user_bytes_cap ≡ r.user_bytes_cap

freed_slot :
    (r : UserRing) (off n : ℕ) (ss : List Slot)
    → IsRing r
    → Layout r (slot_at off n ++ ss)
    → FreedFor r (user_free_head r n) ss
freed_slot r off zero ss v l =
    unfold user_free_head in record { layout = l; same_bytes = refl; same_cap = refl }
freed_slot r off (suc n) ss v l =
    let f : Freed r (record { off = off; len = suc n }) ss (user_free_head r (suc n)) =
      user_free_head-Freed r (record { off = off; len = suc n }) ss v l in
    record { layout = f.layout; same_bytes = f.same_bytes; same_cap = f.same_cap }

free_payload-FreedFor :
    (r : UserRing) (b : EventBody) (ss : List Slot)
    → IsRing r
    → Layout r (body_slots b ++ ss)
    → FreedFor r (free_payload b r) ss
free_payload-FreedFor r (user u) ss v l = freed_slot r u.payload_off u.byte_len ss v l
free_payload-FreedFor r (paste p) ss v l = freed_slot r p.payload_off p.byte_len ss v l
free_payload-FreedFor r invalid ss v l = record { layout = l; same_bytes = refl; same_cap = refl }
free_payload-FreedFor r (key k) ss v l = record { layout = l; same_bytes = refl; same_cap = refl }
free_payload-FreedFor r (text t) ss v l = record { layout = l; same_bytes = refl; same_cap = refl }
free_payload-FreedFor r (mouse m) ss v l = record { layout = l; same_bytes = refl; same_cap = refl }
free_payload-FreedFor r (resize z) ss v l = record {
  layout = l;
  same_bytes = refl;
  same_cap = refl;
}
free_payload-FreedFor r (tick t) ss v l = record { layout = l; same_bytes = refl; same_cap = refl }

-- The queue without its oldest event, whatever else changes.
pub record Removed (q q' : EventQueue) : Type 0 where
  pub sound : IsSound q'
  pub first : items q ≡ item_of q.ring.user_bytes (event_at q q.head) ∷ items q'
  pub fewer : q'.count ≡ q.count - 1
  pub same_cap : q'.cap ≡ q.cap
  pub freed : q'.ring ≡ free_payload (event_at q q.head).body q.ring

module _ (q q' : EventQueue) (s : IsSound q) (some_left : q.count ≢ 0)
    (events_eq : q'.events ≡ q.events) (cap_eq : q'.cap ≡ q.cap)
    (head_eq : q'.head ≡ add_u32 q.head 1 % q.cap) (count_eq : q'.count ≡ sub_u32 q.count 1)
    (ring_eq : q'.ring ≡ free_payload (event_at q q.head).body q.ring) where
  queued_split : queued q ≡ event_at q q.head ∷ queued q'
  queued_split =
      let h : q'.head ≡ (q.head + 1) % q.cap =
        head_eq ∙ ap (λ k. k % q.cap) (omega (arith, s.array)) in
      let c : q'.count ≡ q.count - 1 = omega (arith, s.array) in
      window_step zero_event q.cap q.events q.head q.count some_left ∙ rw (events_eq, cap_eq, h, c)

  pub removed : Removed q q'
  removed =
      let l : Layout q.ring (body_slots (event_at q q.head).body ++ slots_of (queued q')) =
        subst (λ es. Layout q.ring (slots_of es)) queued_split s.layout in
      let f =
        free_payload-FreedFor q.ring (event_at q q.head).body (slots_of (queued q')) s.is_ring l in
      record {
        sound = record {
          array = record {
            cap_pos = omega (arith, s.array);
            cap_small = omega (arith, s.array);
            storage = omega (arith, s.array, ap length events_eq);
            head_in = omega (arith, s.array);
            count_in = omega (arith, s.array);
          };
          is_ring = record {
            storage = omega (
              arith,
              s.is_ring,
              f.same_cap,
              ap length f.same_bytes,
              ap (λ (r : UserRing). r.user_bytes_cap) ring_eq,
              ap (λ (r : UserRing). length r.user_bytes) ring_eq,
            );
            cap_u32 =
                omega
                  (arith, s.is_ring, f.same_cap, ap (λ (r : UserRing). r.user_bytes_cap) ring_eq);
          };
          layout = rw ring_eq f.layout;
        };
        first =
            ap (items_of q.ring.user_bytes) queued_split
            ∙ ap (λ b. item_of q.ring.user_bytes (event_at q q.head) ∷ items_of b (queued q'))
                (sym (ap (λ (r : UserRing). r.user_bytes) ring_eq ∙ f.same_bytes));
        fewer = omega (arith, s.array);
        same_cap = cap_eq;
        freed = ring_eq;
      }

drop_fields :
    (q : EventQueue)
    → q.count ≢ 0
    → let q' = drop_head_locked q in
      (q'.events ≡ q.events)
      × (q'.cap ≡ q.cap)
      × (q'.head ≡ add_u32 q.head 1 % q.cap)
      × (q'.count ≡ sub_u32 q.count 1)
      × (q'.ring ≡ free_payload (event_at q q.head).body q.ring)
unfolding drop_head_locked
drop_fields q ne = ground arith

-- The drop of the oldest event.
pub drop_head_locked-Removed :
    (q : EventQueue) → IsSound q → q.count ≢ 0 → Removed q (drop_head_locked q)
drop_head_locked-Removed q s ne =
    let (a, b, c, d, e) = drop_fields q ne in removed q (drop_head_locked q) s ne a b c d e
