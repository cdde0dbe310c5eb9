-- ===== src/EventQueue/Post.antt =====
-- zr_event_queue_post_user and zr_event_queue_post_paste: all or nothing.
use zireael.Prelude.{
  is_nil, ℕ, ◌≤◌, ◌<◌, ◌≡◌, ◌≢◌, refl, ap, ◌∙◌, ◌⊎◌, inl, inr, Bool, true, false, not, ◌&&◌, List,
  [], ◌∷◌, ◌++◌, length, take, arith, Option, none, some, if◌then◌else◌, ◌==◌,
}
use zireael.Result.{zr_ok, zr_err_limit}
use zireael.Event.{Event}
use zireael.UserRing.{user_alloc}
use zireael.EventQueue.{
  EventQueue, drop_head_locked, can_enqueue_paste_locked, evq_lock, evq_unlock,
}
use zireael.EventQueue.Api.{
  make_room, store_payload, user_event, paste_event, post_user_given, post_paste_given,
}
use zireael.EventQueue.Items.{IsSound, IsValid, items, item_of, Item}
use zireael.EventQueue.Store.{IsSound-same}
use zireael.EventQueue.Payload.{Owns, store_payload-Stores}
use zireael.EventQueue.Spec
use zireael.EventQueue.Push.{IsArray-ready, make_room-Room}

-- The item that a posted event adds.
abbrev pub posted : (ℕ → Event) → ℕ → List ℕ → Item
posted mk n payload = record (item_of [] (mk 0)) { bytes = take n payload }

user_event-Owns : (time_ms tag n : ℕ) → Owns n (user_event time_ms tag n)
user_event-Owns time_ms tag n = record { slots = λ off. refl; item = λ buf off. refl }

paste_event-Owns : (time_ms n : ℕ) → Owns n (paste_event time_ms n)
paste_event-Owns time_ms n = record { slots = λ off. refl; item = λ buf off. refl }

-- The NULL test passes when the payload has the bytes that are announced.
given_payload :
    (payload : List ℕ) (n : ℕ) → n ≤ length payload → (is_nil payload && not (n == 0)) ≡ false
given_payload [] n h = ground arith
given_payload (x ∷ xs) n h = refl

locked-IsSound : (q : EventQueue) → IsValid q → IsSound (evq_lock q)
locked-IsSound q v = IsSound-same refl refl refl refl refl v.sound

relock-IsValid : (q : EventQueue) → IsValid q → IsValid (evq_unlock (evq_lock q))
relock-IsValid q v = record {
  unlocked = refl;
  sound = IsSound-same refl refl refl refl refl v.sound;
}

module _ (q : EventQueue) (time_ms tag : ℕ) (payload : List ℕ) (n : ℕ) (v : IsValid q)
    (given : n ≤ length payload) where
  user_cases :
      ((q.count ≢ q.cap)
        × (n ≤ q.ring.user_bytes_cap)
        × (post_user_given q time_ms tag payload n
            ≡ store_payload (evq_lock q) payload n (user_event time_ms tag n)))
      ⊎ (((q.count ≡ q.cap) ⊎ (q.ring.user_bytes_cap < n))
          × (post_user_given q time_ms tag payload n ≡ (zr_err_limit, evq_unlock (evq_lock q))))
  unfolding post_user_given
  user_cases = ground (arith, IsArray-ready q v.sound.array, given_payload payload n given)

  -- On a valid queue and as many bytes as are announced, a post keeps the queue valid. Either the
  -- user event is queued last with its payload; or it is refused with ZR_ERR_LIMIT and the queued
  -- events stay, which happens only where the queue is full, the payload is longer than the ring, or
  -- the ring grants no run of its length.
  pub post_user_given-posted :
      IsValid (post_user_given q time_ms tag payload n).1
      × (let (status, q') = post_user_given q time_ms tag payload n in
          ((status ≡ zr_ok)
            × (items q' ≡ items q ++ (posted (user_event time_ms tag n) n payload ∷ [])))
          ⊎ ((status ≡ zr_err_limit)
              × (items q' ≡ items q)
              × ((q.count ≡ q.cap)
                  ⊎ ((q.ring.user_bytes_cap < n) ⊎ ((user_alloc q.ring n).0 ≡ none)))))
  post_user_given-posted = elim user_cases [
    | inl (ne, fits, e) ↦
        let st =
          store_payload-Stores (evq_lock q) n payload (user_event time_ms tag n)
            (locked-IsSound q v) ne given (user_event-Owns time_ms tag n) in
        rw e (
          record { unlocked = st.unlocked; sound = st.sound },
          elim st.seen [ inl (a, b) ↦ inl (a, b) | inr (a, b, c) ↦ inr (a, b, inr (inr c)) ],
        )
    | inr (why, e) ↦
        rw e
          (relock-IsValid q v, inr (refl, refl, elim why [ inl a ↦ inl a | inr b ↦ inr (inl b) ]))
  ]

abbrev is_some : Option ℕ → Bool
is_some none = false
is_some (some x) = true

-- The copy on which the probe works.
abbrev probe_of : EventQueue → EventQueue
probe_of q = record q {
  lock = false;
  dropped_total = 0;
  dropped_due_to_full = 0;
  dropped_user_due_to_full = 0;
  dropped_coalesce_candidates = 0;
}

probe_ring :
    (q : EventQueue)
    → (if q.count == q.cap then drop_head_locked (probe_of q) else probe_of q).ring
      ≡ (make_room q).ring
unfolding make_room drop_head_locked
probe_ring q = ground arith

-- The probe answers for the queue as it is after `make_room`.
can_enqueue-make_room :
    (q : EventQueue) (n : ℕ)
    → can_enqueue_paste_locked q n ≡ is_some (user_alloc (make_room q).ring n).0
unfolding can_enqueue_paste_locked
can_enqueue-make_room q n = ap (λ r. is_some (user_alloc r n).0) (probe_ring q)

no_grant : (o : Option ℕ) → is_some o ≡ false → o ≡ none
no_grant none h = refl
no_grant (some x) h = cc

is_some-none : (o : Option ℕ) → is_some o ≡ true → o ≢ none
is_some-none none h = λ e. cc
is_some-none (some x) h = λ e. cc

module _ (q : EventQueue) (time_ms : ℕ) (bytes : List ℕ) (n : ℕ) (v : IsValid q)
    (given : n ≤ length bytes) where
  abbrev roomy : EventQueue
  roomy = make_room (evq_lock q)

  paste_cases :
      ((is_some (user_alloc roomy.ring n).0 ≡ true)
        × (post_paste_given q time_ms bytes n
            ≡ store_payload roomy bytes n (paste_event time_ms n)))
      ⊎ (((q.ring.user_bytes_cap < n) ⊎ (is_some (user_alloc roomy.ring n).0 ≡ false))
          × (post_paste_given q time_ms bytes n ≡ (zr_err_limit, evq_unlock (evq_lock q))))
  unfolding post_paste_given
  paste_cases = ground (
    arith,
    IsArray-ready q v.sound.array,
    given_payload bytes n given,
    can_enqueue-make_room (evq_lock q) n,
  )

  -- On a valid queue and as many bytes as are announced, a paste keeps the queue valid. Either it is
  -- queued last with its bytes, at the cost of the oldest event of a full queue; or it is refused
  -- with ZR_ERR_LIMIT and no event is lost, which happens only where it is longer than the ring or
  -- the ring, once that oldest event is gone, grants no run of its length.
  pub post_paste_given-posted :
      IsValid (post_paste_given q time_ms bytes n).1
      × (let (status, q') = post_paste_given q time_ms bytes n in
          ((status ≡ zr_ok)
            × (items q'
                ≡ Spec.drop_oldest q.cap (items q)
                  ++ (posted (paste_event time_ms n) n bytes ∷ [])))
          ⊎ ((status ≡ zr_err_limit)
              × (items q' ≡ items q)
              × ((q.ring.user_bytes_cap < n)
                  ⊎ ((user_alloc (make_room (evq_lock q)).ring n).0 ≡ none))))
  post_paste_given-posted = elim paste_cases [
    | inl (fits, e) ↦
        let room = make_room-Room (evq_lock q) (locked-IsSound q v) in
        let st =
          store_payload-Stores roomy n bytes (paste_event time_ms n) room.sound room.below given
            (paste_event-Owns time_ms n) in
        rw e (
          record { unlocked = st.unlocked; sound = st.sound },
          elim st.seen [
            | inl (a, b) ↦
                inl
                  (a, b ∙ ap (λ xs. xs ++ (posted (paste_event time_ms n) n bytes ∷ [])) room.seen)
            | inr (a, b, c) ↦ absurd (is_some-none _ fits c)
          ],
        )
    | inr (why, e) ↦ rw e (
      relock-IsValid q v,
      inr (refl, refl, elim why [ inl a ↦ inl a | inr b ↦ inr (no_grant _ b) ]),
    )
  ]
