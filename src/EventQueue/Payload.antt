-- ===== src/EventQueue/Payload.antt =====
-- zr_event_queue_post_user and zr_event_queue_post_paste: the payload is stored with its event.
use zireael.Prelude.{
  ℕ, ◌+◌, ◌≤◌, ◌<◌, ◌≡◌, ◌≢◌, refl, ap, ap₂, ◌∙◌, ◌⊎◌, inl, inr, false, List, [], ◌∷◌, ◌++◌, length,
  take, length-take, arith, none, some, Option-cases, append-nil,
}
use zireael.Prelude.Buffer.{write_at, slice, length-write_at, slice-write_at_self}
use native.Mathlib.Decide.{ℕ_discrete}
use zireael.Result.{ZrResult, zr_ok, zr_err_limit}
use zireael.Event.{Event}
use zireael.UserRing.{UserRing, user_alloc}
use zireael.UserRing.Layout.{flat, wrapped, Slot, Layout, IsRing}
use zireael.UserRing.Alloc.{Granted, user_alloc-Granted, user_alloc_refused}
use zireael.EventQueue.{EventQueue, append_event, evq_unlock}
use zireael.EventQueue.Api.{store_payload}
use zireael.EventQueue.Items.{
  IsArray, IsSound, queued, items, items_of, item_of, slots_of, body_slots, slot_at,
  items_of-write_at,
}
use zireael.EventQueue.Store.{
  slot_at_pos, IsSound-same, append_event-IsSound, items-append_event, IsArray-ring,
}

-- The ring with the payload copied in.
abbrev copied : UserRing → ℕ → List ℕ → UserRing
copied r off src = record r { user_bytes = write_at r.user_bytes off src }

copied-Layout :
    (r : UserRing) (off : ℕ) (src : List ℕ) (ss : List Slot)
    → Layout r ss
    → Layout (copied r off src) ss
copied-Layout r off src ss (flat f) = flat (record {
  chain = f.chain;
  ordered = f.ordered;
  tail_in = f.tail_in;
  filled = f.filled;
  no_pad = f.no_pad;
  idle = f.idle;
})
copied-Layout r off src ss (wrapped front back q f) = wrapped front back q (record {
  older = f.older;
  newer = f.newer;
  apart = f.apart;
  pad_in = f.pad_in;
  filled = f.filled;
})

-- An event that owns the `n` bytes at the offset that it is made with, and nothing else.
pub record Owns (n : ℕ) (mk : ℕ → Event) : Type 0 where
  pub slots : (off : ℕ) → body_slots (mk off).body ≡ slot_at off n
  pub item :
      (buf : List ℕ) (off : ℕ)
      → item_of buf (mk off) ≡ record (item_of [] (mk 0)) { bytes = slice buf off n }

-- What storing a payload of `n` bytes does: all of it, or nothing that a client could see.
pub record Stores (q : EventQueue) (n : ℕ) (payload : List ℕ) (mk : ℕ → Event)
    (out : ZrResult × EventQueue) : Type 0 where
  pub sound : IsSound out.1
  pub unlocked : out.1.lock ≡ false
  pub seen :
      ((out.0 ≡ zr_ok)
        × (items out.1 ≡ items q ++ (record (item_of [] (mk 0)) { bytes = take n payload } ∷ [])))
      ⊎ ((out.0 ≡ zr_err_limit) × (items out.1 ≡ items q) × ((user_alloc q.ring n).0 ≡ none))

module _ (q : EventQueue) (n : ℕ) (payload : List ℕ) (mk : ℕ → Event) (s : IsSound q)
    (room : q.count ≢ q.cap) (given : n ≤ length payload) (o : Owns n mk) where
  refused_eq :
      (user_alloc q.ring n).0 ≡ none → store_payload q payload n mk ≡ (zr_err_limit, evq_unlock q)
  unfolding store_payload
  refused_eq e = ground (arith, user_alloc_refused q.ring (slots_of (queued q)) n s.layout e)

  empty_eq :
      n ≡ 0
      → store_payload q payload n mk ≡ (zr_ok, evq_unlock (append_event q (mk q.ring.user_tail)))
  unfolding store_payload user_alloc
  empty_eq z = rw z

  granted_eq :
      (off : ℕ)
      → 0 < n
      → (user_alloc q.ring n).0 ≡ some off
      → store_payload q payload n mk ≡ (
        zr_ok,
        evq_unlock (
            append_event
              (record q { ring = copied (user_alloc q.ring n).1 off (take n payload) })
              (mk off)),
      )
  unfolding store_payload
  granted_eq off p e = ground arith

  evq_unlock-IsSound : (q' : EventQueue) → IsSound q' → IsSound (evq_unlock q')
  evq_unlock-IsSound q' h = IsSound-same refl refl refl refl refl h

  refused-Stores :
      (user_alloc q.ring n).0 ≡ none → Stores q n payload mk (store_payload q payload n mk)
  refused-Stores e =
      rw (refused_eq e)
        (record { sound = evq_unlock-IsSound q s; unlocked = refl; seen = inr (refl, refl, e) })

  empty-Stores : n ≡ 0 → Stores q n payload mk (store_payload q payload n mk)
  empty-Stores z =
      let tail = q.ring.user_tail in
      let none_owned : body_slots (mk tail).body ≡ [] = o.slots tail ∙ ap (slot_at tail) z in
      let seen_as : item_of q.ring.user_bytes (mk tail)
          ≡ record (item_of [] (mk 0)) { bytes = take n payload } =
        o.item q.ring.user_bytes tail ∙ rw z in
      rw (empty_eq z) (record {
        sound = evq_unlock-IsSound _ (
            append_event-IsSound q (mk tail) s.array s.is_ring room
              (rw (none_owned, append-nil) s.layout));
        unlocked = refl;
        seen = inl (
          refl,
          items-append_event q (mk tail) s.array room ∙ ap (λ x. items q ++ (x ∷ [])) seen_as,
        );
      })

  -- The queue with the payload copied in, before its event is appended.
  module _ (off : ℕ) (p : 0 < n)
      (g : Granted q.ring (slots_of (queued q)) n off (user_alloc q.ring n).1) where
    abbrev filled : EventQueue
    filled = record q { ring = copied (user_alloc q.ring n).1 off (take n payload) }

    length-taken : length (take n payload) ≡ n
    length-taken = omega (arith, length-take n payload)

    filled-IsRing : IsRing filled.ring
    filled-IsRing = record {
      storage = omega (
        arith,
        s.is_ring,
        g.same_cap,
        ap length g.same_bytes,
        length-write_at (user_alloc q.ring n).1.user_bytes off (take n payload),
      );
      cap_u32 = omega (arith, s.is_ring, g.same_cap);
    }

    filled-Layout : Layout filled.ring (slots_of (queued q) ++ body_slots (mk off).body)
    filled-Layout =
        rw (o.slots off ∙ slot_at_pos off n p) (copied-Layout _ off (take n payload) _ g.layout)

    items-filled : items filled ≡ items q
    items-filled =
        items_of-write_at (user_alloc q.ring n).1.user_bytes (take n payload) off (queued q)
          (rw length-taken g.free)
        ∙ ap (λ b. items_of b (queued q)) g.same_bytes

    item-filled :
        item_of filled.ring.user_bytes (mk off)
        ≡ record (item_of [] (mk 0)) { bytes = take n payload }
    item-filled =
        let src = take n payload in
        let buf = (user_alloc q.ring n).1.user_bytes in
        let fits : off + length src ≤ length buf =
          omega (arith, length-taken, g.inside, s.is_ring, ap length g.same_bytes) in
        let read : slice (write_at buf off src) off n ≡ src =
          rw length-taken at (slice-write_at_self buf off src fits) in
        o.item filled.ring.user_bytes off ∙ ap (λ b. record (item_of [] (mk 0)) { bytes = b }) read

  granted-Stores :
      (off : ℕ)
      → 0 < n
      → (user_alloc q.ring n).0 ≡ some off
      → Stores q n payload mk (store_payload q payload n mk)
  granted-Stores off p e =
      let g : Granted q.ring (slots_of (queued q)) n off (user_alloc q.ring n).1 =
        user_alloc-Granted q.ring (slots_of (queued q)) n off s.is_ring s.layout p e in
      let a : IsArray (filled off p g) = IsArray-ring q _ s.array in
      rw (granted_eq off p e) (record {
        sound = evq_unlock-IsSound _ (
            append_event-IsSound (filled off p g) (mk off) a (filled-IsRing off p g) room
              (filled-Layout off p g));
        unlocked = refl;
        seen = inl (
          refl,
          items-append_event (filled off p g) (mk off) a room
              ∙ ap₂ (λ xs x. xs ++ (x ∷ [])) (items-filled off p g) (item-filled off p g),
        );
      })

  pub store_payload-Stores : Stores q n payload mk (store_payload q payload n mk)
  store_payload-Stores = elim (Option-cases (user_alloc q.ring n).0) [
    | inl e ↦ refused-Stores e
    | inr (off, e) ↦ elim (ℕ_discrete n 0) [
      | yes z ↦ empty-Stores z
      | no z ↦ granted-Stores off (omega arith) e
    ]
  ]
