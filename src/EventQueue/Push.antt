-- ===== src/EventQueue/Push.antt =====
-- zr_event_queue_push and zr_event_queue_try_push_no_drop against the abstract queue.
use zireael.Prelude.{
  is_nil, ℕ, suc, ◌<◌, ◌≡◌, ◌≢◌, refl, sym, ap, ◌∙◌, Bool, true, false, List, [], ◌∷◌, ◌++◌, length,
  arith, none, some, if◌then◌else◌, ◌==◌, append-nil,
}
use native.Mathlib.Decide.{ℕ_discrete}
use zireael.Result.{ZrResult, zr_ok, zr_err_limit}
use zireael.Event.{Event, zero_event}
use zireael.UserRing.{add_u32}
use zireael.EventQueue.{
  EventQueue, try_coalesce_locked, drop_head_locked, append_event, evq_lock, evq_unlock,
}
use zireael.EventQueue.Api.{is_ready, make_room, push_given, try_push_no_drop_given}
use zireael.Prelude.Window.{length-window}
use zireael.EventQueue.Items.{
  IsArray, IsSound, IsValid, queued, items, items_of, item_of, body_slots, Item,
}
use zireael.EventQueue.Store.{IsSound-same, append_event-IsSound, items-append_event}
use zireael.EventQueue.Spec
use zireael.EventQueue.Remove.{drop_head_locked-Removed}
use zireael.EventQueue.Replace.{Coalesced, missed, hit, try_coalesce-Coalesced, item_of_payloadless}

pub is_nil_of_pos {ℓ} : {A : Type ℓ} (xs : List A) → 0 < length xs → is_nil xs ≡ false
is_nil_of_pos [] h = absurd (omega arith)
is_nil_of_pos (x ∷ xs) h = refl

-- A queue with a sound array passes the first test of every operation.
pub IsArray-ready : (q : EventQueue) → IsArray q → is_ready q ≡ true
IsArray-ready q a = ground (arith, is_nil_of_pos q.events (omega arith))

length-items_of : (buf : List ℕ) (es : List Event) → length (items_of buf es) ≡ length es
length-items_of buf [] = refl
length-items_of buf (e ∷ es) = ap suc (length-items_of buf es)

pub length-items : (q : EventQueue) → length (items q) ≡ q.count
length-items q =
    length-items_of q.ring.user_bytes (queued q)
    ∙ length-window zero_event q.cap q.events q.head q.count

-- After `make_room` there is room, and the oldest item is gone if there was none before.
pub record Room (q q' : EventQueue) : Type 0 where
  pub sound : IsSound q'
  pub below : q'.count ≢ q'.cap
  pub seen : items q' ≡ Spec.drop_oldest q.cap (items q)
  pub same_cap : q'.cap ≡ q.cap

make_room-full : (q : EventQueue) → q.count ≡ q.cap → make_room q ≡ drop_head_locked q
unfolding make_room
make_room-full q e = ground arith

make_room-spare : (q : EventQueue) → q.count ≢ q.cap → make_room q ≡ q
unfolding make_room
make_room-spare q e = ground arith

drop_oldest-full :
    (cap : ℕ) (x : Item) (xs : List Item)
    → length (x ∷ xs) ≡ cap
    → Spec.drop_oldest cap (x ∷ xs) ≡ xs
unfolding Spec.drop_oldest
drop_oldest-full cap x xs e = ground arith

drop_oldest-spare : (cap : ℕ) (xs : List Item) → length xs ≢ cap → Spec.drop_oldest cap xs ≡ xs
unfolding Spec.drop_oldest
drop_oldest-spare cap [] ne = refl
drop_oldest-spare cap (x ∷ xs) ne = ground arith

pub make_room-Room : (q : EventQueue) → IsSound q → Room q (make_room q)
make_room-Room q s = elim (ℕ_discrete q.count q.cap) [
  | yes e ↦
      let r = drop_head_locked-Removed q s (omega (arith, s.array)) in
      let len = length-items q in
      rw (make_room-full q e) (record {
        sound = r.sound;
        below = omega (arith, s.array, r.fewer, r.same_cap);
        seen = sym (
            ap (Spec.drop_oldest q.cap) r.first
            ∙ drop_oldest-full q.cap _ (items (drop_head_locked q))
                (ap length (sym r.first) ∙ len ∙ e));
        same_cap = r.same_cap;
      })
  | no ne ↦ rw (make_room-spare q ne) (record {
    sound = s;
    below = ne;
    seen = sym (drop_oldest-spare q.cap (items q) (omega (arith, length-items q)));
    same_cap = refl;
  })
]

eq_test : (a b : ℕ) → a ≡ b → (a == b) ≡ true
eq_test a b h = ground arith

ne_test : (a b : ℕ) → a ≢ b → (a == b) ≡ false
ne_test a b h = ground arith

push_hit :
    (cap : ℕ) (x : Item) (xs ys : List Item)
    → Spec.replace_last x xs ≡ some ys
    → (Spec.push cap x xs ≡ ys) × (Spec.try_push cap x xs ≡ (zr_ok, ys))
unfolding Spec.push Spec.try_push
push_hit cap x xs ys e = ground (arith, e)

push_miss :
    (cap : ℕ) (x : Item) (xs : List Item)
    → Spec.replace_last x xs ≡ none
    → (Spec.push cap x xs ≡ Spec.drop_oldest cap xs ++ (x ∷ []))
      × (Spec.try_push cap x xs
          ≡ (if length xs == cap then (zr_err_limit, xs) else (zr_ok, xs ++ (x ∷ []))))
unfolding Spec.push Spec.try_push
push_miss cap x xs e = ground (arith, e)

module _ (q : EventQueue) (ev : Event) (v : IsValid q) (h : body_slots ev.body ≡ []) where
  abbrev locked : EventQueue
  locked = evq_lock q

  locked-IsSound : IsSound locked
  locked-IsSound = IsSound-same refl refl refl refl refl v.sound

  evq_unlock-IsValid : (q' : EventQueue) → IsSound q' → IsValid (evq_unlock q')
  evq_unlock-IsValid q' s = record {
    unlocked = refl;
    sound = IsSound-same refl refl refl refl refl s;
  }

  -- An event without a payload, appended below the capacity.
  appended :
      (q' : EventQueue)
      → IsSound q'
      → q'.count ≢ q'.cap
      → IsValid (evq_unlock (append_event q' ev))
        × (items (append_event q' ev) ≡ items q' ++ (item_of [] ev ∷ []))
  appended q' s ne = (
    evq_unlock-IsValid _
        (append_event-IsSound q' ev s.array s.is_ring ne (rw (h, append-nil) s.layout)),
    items-append_event q' ev s.array ne
        ∙ ap (λ x. items q' ++ (x ∷ [])) (item_of_payloadless q'.ring.user_bytes ev h),
  )

  -- The part of a push behind the coalescing.
  abbrev finish : Bool × EventQueue → ZrResult × EventQueue
  finish out =
      (zr_ok, if out.0 then evq_unlock out.1 else evq_unlock (append_event (make_room out.1) ev))

  push_eq : push_given q ev ≡ finish (try_coalesce_locked locked ev)
  unfolding push_given
  push_eq = ground (arith, IsArray-ready q v.sound.array)

  record Pushes (out : ZrResult × EventQueue) : Type 0 where
    status : out.0 ≡ zr_ok
    valid : IsValid out.1
    seen : items out.1 ≡ Spec.push q.cap (item_of [] ev) (items q)

  finish-Pushes : (out : Bool × EventQueue) → Coalesced locked ev out → Pushes (finish out)
  finish-Pushes out (missed e r) =
      let m = make_room-Room locked locked-IsSound in
      let a = appended (make_room locked) m.sound m.below in
      rw (e) (record {
        status = refl;
        valid = a.0;
        seen =
            a.1
            ∙ ap (λ xs. xs ++ (item_of [] ev ∷ [])) m.seen
            ∙ sym (push_miss q.cap _ (items q) r).0;
      })
  finish-Pushes out (hit e s r) = rw e (record {
    status = refl;
    valid = evq_unlock-IsValid out.1 s;
    seen = sym (push_hit q.cap _ (items q) _ r).0;
  })

  -- On a valid queue, and an event whose body owns no payload, a push succeeds, keeps the queue
  -- valid and does to the queued events what `Spec.push` does to a list: the event replaces the
  -- newest one of its coalescible kind, or else it is added last, at the cost of the oldest event
  -- where the capacity was reached.
  pub push_given-push :
      ((push_given q ev).0 ≡ zr_ok)
      × IsValid (push_given q ev).1
      × (items (push_given q ev).1 ≡ Spec.push q.cap (item_of [] ev) (items q))
  push_given-push =
      let p = finish-Pushes _ (try_coalesce-Coalesced locked ev locked-IsSound h) in
      rw push_eq (p.status, p.valid, p.seen)

  -- The part of a push that does not drop.
  abbrev finish_no_drop : Bool × EventQueue → ZrResult × EventQueue
  finish_no_drop out =
      if out.0
      then (zr_ok, evq_unlock out.1)
      else if out.1.count == out.1.cap
      then (
        zr_err_limit,
        evq_unlock (record out.1 {
          dropped_total = add_u32 out.1.dropped_total 1;
          dropped_due_to_full = add_u32 out.1.dropped_due_to_full 1;
        }),
      )
      else (zr_ok, evq_unlock (append_event out.1 ev))

  try_push_eq : try_push_no_drop_given q ev ≡ finish_no_drop (try_coalesce_locked locked ev)
  unfolding try_push_no_drop_given
  try_push_eq = ground (arith, IsArray-ready q v.sound.array)

  record TryPushes (out : ZrResult × EventQueue) : Type 0 where
    valid : IsValid out.1
    seen : (out.0, items out.1) ≡ Spec.try_push q.cap (item_of [] ev) (items q)

  finish_no_drop-TryPushes :
      (out : Bool × EventQueue) → Coalesced locked ev out → TryPushes (finish_no_drop out)
  finish_no_drop-TryPushes out (missed e r) = elim (ℕ_discrete q.count q.cap) [
    | yes z ↦
        let len : length (items q) ≡ q.cap = length-items q ∙ z in
        rw (e, eq_test q.count q.cap z)
          (record {
            valid = record {
              unlocked = refl;
              sound = IsSound-same refl refl refl refl refl v.sound;
            };
            seen = sym ((push_miss q.cap _ (items q) r).1 ∙ rw (eq_test _ q.cap len));
          })
    | no ne ↦
        let a = appended locked locked-IsSound ne in
        let len : length (items q) ≢ q.cap = rw (length-items q) ne in
        rw (e, ne_test q.count q.cap ne)
          (record {
            valid = a.0;
            seen =
                ap (λ xs. (zr_ok, xs)) a.1
                ∙ sym ((push_miss q.cap _ (items q) r).1 ∙ rw (ne_test _ q.cap len));
          })
  ]
  finish_no_drop-TryPushes out (hit e s r) =
      rw e (record {
        valid = evq_unlock-IsValid out.1 s;
        seen = sym (push_hit q.cap _ (items q) _ r).1;
      })

  -- On a valid queue, and an event whose body owns no payload, the push that never drops keeps the
  -- queue valid, and its result and queued events are those of `Spec.try_push`: coalesced, added
  -- last, or refused with ZR_ERR_LIMIT and the events as they were where the capacity was reached.
  pub try_push_no_drop_given-try_push :
      IsValid (try_push_no_drop_given q ev).1
      × (((try_push_no_drop_given q ev).0, items (try_push_no_drop_given q ev).1)
          ≡ Spec.try_push q.cap (item_of [] ev) (items q))
  try_push_no_drop_given-try_push =
      let p = finish_no_drop-TryPushes _ (try_coalesce-Coalesced locked ev locked-IsSound h) in
      rw try_push_eq (p.valid, p.seen)
