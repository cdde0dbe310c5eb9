-- ===== src/EventQueue/Tests.antt =====
-- Runs of the event queue, and its theorems at concrete queues.
use zireael.Prelude.{ℕ, ◌<◌, ◌≡◌, refl, ◌⊎◌, false, [], ◌∷◌, ◌++◌, arith, none, some}
use zireael.Result.{zr_ok, zr_err_limit}
use zireael.Event.{Event, resize, zero_event}
use zireael.UserRing.{UserRing, user_alloc, alloc_end, alloc_mid, restart_empty, user_free_head}
use zireael.UserRing.Layout.{Slot, Layout, wrapped, IsRing}
use zireael.UserRing.Alloc.{Granted, user_alloc-Granted}
use zireael.UserRing.Exact.{granted, user_alloc-has_run}
use zireael.UserRing.Free.{Freed, user_free_head-Freed}
use zireael.EventQueue.{
  EventQueue, evq_lock, event_queue_init, append_event, try_coalesce_locked, coalesce_scan,
}
use zireael.EventQueue.Api.{
  push_given, try_push_no_drop_given, post_user_given, post_paste_given, pop_given, make_room,
  user_event, paste_event,
}
use zireael.EventQueue.Items.{IsValid, items, item_of}
use zireael.EventQueue.Spec
use zireael.EventQueue.Push.{push_given-push, try_push_no_drop_given-try_push}
use zireael.EventQueue.Post.{posted, post_user_given-posted, post_paste_given-posted}
use zireael.EventQueue.Pop.{pop_given-first, AllViewed, IsValid-AllViewed}
use zireael.EventQueue.Run.{Served, start, next, push, post_paste, Reachable-Served}

abbrev resized : ℕ → ℕ → Event
resized cols rows = record {
  body = resize (record { cols = cols; rows = rows; reserved0 = 0; reserved1 = 0 });
  time_ms = 7;
  flags = 0;
}

-- A queue of two events: a paste of three bytes at the end of the ring and a user event that
-- wrapped to its start, with one byte of pad between them.
abbrev wrapped_ring : UserRing
wrapped_ring = record {
  user_bytes = 21 ∷ 22 ∷ 0 ∷ 0 ∷ 11 ∷ 12 ∷ 13 ∷ 0 ∷ [];
  user_bytes_cap = 8;
  user_head = 4;
  user_tail = 2;
  user_used = 6;
  user_pad_end = 1;
}

abbrev busy : EventQueue
busy = record {
  lock = false;
  events = user_event 2 9 2 0 ∷ zero_event ∷ paste_event 1 3 4 ∷ [];
  cap = 3;
  head = 2;
  count = 2;
  ring = wrapped_ring;
  dropped_total = 0;
  dropped_due_to_full = 0;
  dropped_user_due_to_full = 0;
  dropped_coalesce_candidates = 0;
}

abbrev paste_slot : Slot
paste_slot = record { off = 4; len = 3 }

abbrev user_slot : Slot
user_slot = record { off = 0; len = 2 }

wrapped_ring-IsRing : IsRing wrapped_ring
wrapped_ring-IsRing = omega arith

wrapped_ring-Layout : Layout wrapped_ring (paste_slot ∷ user_slot ∷ [])
wrapped_ring-Layout = wrapped (paste_slot ∷ []) (user_slot ∷ []) refl (record {
  older = omega arith;
  newer = omega arith;
  apart = omega arith;
  pad_in = omega arith;
  filled = omega arith;
})

busy-IsValid : IsValid busy
busy-IsValid = record {
  unlocked = refl;
  sound = record {
    array = omega arith;
    is_ring = wrapped_ring-IsRing;
    layout = wrapped_ring-Layout;
  };
}

-- The paste goes out first, with the bytes at the end of the ring.
pop-busy : (pop_given busy).0 ≡ some (paste_event 1 3 4)
unfolding pop_given
pop-busy = refl

push-busy : (push_given busy (resized 80 24)).1.count ≡ 3
unfolding push_given try_coalesce_locked coalesce_scan make_room append_event
push-busy = refl

user_alloc-Granted_example :
    Granted wrapped_ring (paste_slot ∷ user_slot ∷ []) 2 2 (user_alloc wrapped_ring 2).1
unfolding user_alloc alloc_end alloc_mid restart_empty
user_alloc-Granted_example =
    user_alloc-Granted wrapped_ring (paste_slot ∷ user_slot ∷ []) 2 2 wrapped_ring-IsRing
      wrapped_ring-Layout (omega arith) refl

user_free_head-Freed_example :
    Freed wrapped_ring paste_slot (user_slot ∷ []) (user_free_head wrapped_ring 3)
user_free_head-Freed_example =
    user_free_head-Freed wrapped_ring paste_slot (user_slot ∷ []) wrapped_ring-IsRing
      wrapped_ring-Layout

push_given-push_example :
    ((push_given busy (resized 80 24)).0 ≡ zr_ok)
    × IsValid (push_given busy (resized 80 24)).1
    × (items (push_given busy (resized 80 24)).1
        ≡ Spec.push 3 (item_of [] (resized 80 24)) (items busy))
push_given-push_example = push_given-push busy (resized 80 24) busy-IsValid refl

try_push_no_drop_given-try_push_example :
    IsValid (try_push_no_drop_given busy (resized 80 24)).1
    × ((
      (try_push_no_drop_given busy (resized 80 24)).0,
      items (try_push_no_drop_given busy (resized 80 24)).1,
    )
        ≡ Spec.try_push 3 (item_of [] (resized 80 24)) (items busy))
try_push_no_drop_given-try_push_example =
    try_push_no_drop_given-try_push busy (resized 80 24) busy-IsValid refl

post_user_given-posted_example :
    IsValid (post_user_given busy 5 6 (31 ∷ 32 ∷ []) 2).1
    × (let (status, q') = post_user_given busy 5 6 (31 ∷ 32 ∷ []) 2 in
        ((status ≡ zr_ok)
          × (items q' ≡ items busy ++ (posted (user_event 5 6 2) 2 (31 ∷ 32 ∷ []) ∷ [])))
        ⊎ ((status ≡ zr_err_limit)
            × (items q' ≡ items busy)
            × ((◌≡◌ {A = ℕ} 2 3) ⊎ ((8 < 2) ⊎ ((user_alloc wrapped_ring 2).0 ≡ none)))))
post_user_given-posted_example =
    post_user_given-posted busy 5 6 (31 ∷ 32 ∷ []) 2 busy-IsValid (omega arith)

post_paste_given-posted_example :
    IsValid (post_paste_given busy 5 (31 ∷ 32 ∷ []) 2).1
    × (let (status, q') = post_paste_given busy 5 (31 ∷ 32 ∷ []) 2 in
        ((status ≡ zr_ok)
          × (items q'
              ≡ Spec.drop_oldest 3 (items busy)
                ++ (posted (paste_event 5 2) 2 (31 ∷ 32 ∷ []) ∷ [])))
        ⊎ ((status ≡ zr_err_limit)
            × (items q' ≡ items busy)
            × ((8 < 2) ⊎ ((user_alloc (make_room (evq_lock busy)).ring 2).0 ≡ none))))
post_paste_given-posted_example =
    post_paste_given-posted busy 5 (31 ∷ 32 ∷ []) 2 busy-IsValid (omega arith)

pop_given-first_example :
    IsValid (pop_given busy).1
    × (let (out, q') = pop_given busy in
        ((out ≡ none) × (items busy ≡ []) × (q' ≡ busy))
        ⊎ ((ev : Event) × (out ≡ some ev)
            × (items busy ≡ item_of wrapped_ring.user_bytes ev ∷ items q')))
pop_given-first_example = pop_given-first busy busy-IsValid

IsValid-AllViewed_example : AllViewed wrapped_ring (paste_event 1 3 4 ∷ user_event 2 9 2 0 ∷ [])
IsValid-AllViewed_example = IsValid-AllViewed busy busy-IsValid

user_alloc-has_run_example : granted (user_alloc wrapped_ring 3).0 ≡ false
user_alloc-has_run_example =
    user_alloc-has_run wrapped_ring _ 3 wrapped_ring-IsRing wrapped_ring-Layout (omega arith)

abbrev fresh_queue : EventQueue
fresh_queue = record {
  lock = false;
  events = zero_event ∷ zero_event ∷ [];
  cap = 2;
  head = 0;
  count = 0;
  ring = record {
    user_bytes = 0 ∷ 0 ∷ 0 ∷ [];
    user_bytes_cap = 3;
    user_head = 0;
    user_tail = 0;
    user_used = 0;
    user_pad_end = 0;
  };
  dropped_total = 0;
  dropped_due_to_full = 0;
  dropped_user_due_to_full = 0;
  dropped_coalesce_candidates = 0;
}

accepted :
    event_queue_init (zero_event ∷ zero_event ∷ []) 2 (0 ∷ 0 ∷ 0 ∷ []) 3 ≡ (zr_ok, some fresh_queue)
unfolding event_queue_init
accepted = refl

-- A paste of two bytes, and then a resize.
abbrev pasted : EventQueue
pasted = (post_paste_given fresh_queue 5 (31 ∷ 32 ∷ []) 2).1

Reachable-Served_example : Served (push_given pasted (resized 80 24)).1
Reachable-Served_example =
    Reachable-Served (zero_event ∷ zero_event ∷ []) 2 (0 ∷ 0 ∷ 0 ∷ []) 3 fresh_queue
      (push_given pasted (resized 80 24)).1 (omega arith) (omega arith) (omega arith) (omega arith)
      (omega arith) accepted
      (next pasted _ (next fresh_queue _ start (post_paste 5 (31 ∷ 32 ∷ []) 2 (omega arith)))
        (push (resized 80 24) refl))
