-- ===== src/EventQueue/Api.antt =====
-- src/core/zr_event_queue.c: the public operations. Each has a function over a given queue; the
-- functions named `event_queue_*` are the C ones, with NULL as `none`. An out-parameter is an
-- `Option` in the result, and a `Bool` argument tells whether its address is given.
use zireael.Prelude.{
  is_nil, ℕ, ◌%◌, Bool, true, false, not, ◌&&◌, ◌||◌, Option, none, some, List, [], ltb, ◌==◌, ◌!=◌,
  if◌then◌else◌, take,
}
use zireael.Prelude.Buffer.{write_at, slice}
use zireael.Result.{ZrResult, zr_ok, zr_err_invalid_argument, zr_err_limit}
use zireael.Event.{Event, EventBody, paste, user}
use zireael.UserRing.{UserRing, sub_u32, add_u32, user_alloc}
use zireael.EventQueue.{
  EventQueue, evq_lock, evq_unlock, event_at, try_coalesce_locked, free_payload, drop_head_locked,
  can_enqueue_paste_locked, append_event,
}

-- `!q->events || q->cap == 0u` does not hold.
abbrev pub is_ready : EventQueue → Bool
is_ready q = not (is_nil q.events || (q.cap == 0))

-- `if (q->count == q->cap) drop_head(q);`
unfoldable pub make_room : EventQueue → EventQueue
make_room q = if q.count == q.cap then drop_head_locked q else q

-- zr_event_queue_push
unfoldable pub push_given : EventQueue → Event → ZrResult × EventQueue
push_given q ev =
    if not (is_ready q)
    then (zr_err_invalid_argument, q)
    else (let (coalesced, q') = try_coalesce_locked (evq_lock q) ev in
        if coalesced
        then (zr_ok, evq_unlock q')
        else (zr_ok, evq_unlock (append_event (make_room q') ev)))

unfoldable pub event_queue_push : Option EventQueue → Option Event → ZrResult × Option EventQueue
unfolding push_given
event_queue_push none ev = (zr_err_invalid_argument, none)
event_queue_push (some q) none = (zr_err_invalid_argument, some q)
event_queue_push (some q) (some ev) = let (s, q') = push_given q ev in (s, some q')

-- zr_event_queue_try_push_no_drop
unfoldable pub try_push_no_drop_given : EventQueue → Event → ZrResult × EventQueue
try_push_no_drop_given q ev =
    if not (is_ready q)
    then (zr_err_invalid_argument, q)
    else (let (coalesced, q') = try_coalesce_locked (evq_lock q) ev in
        if coalesced
        then (zr_ok, evq_unlock q')
        else if q'.count == q'.cap
        then (
          zr_err_limit,
          evq_unlock (record q' {
            dropped_total = add_u32 q'.dropped_total 1;
            dropped_due_to_full = add_u32 q'.dropped_due_to_full 1;
          }),
        )
        else (zr_ok, evq_unlock (append_event q' ev)))

unfoldable pub event_queue_try_push_no_drop :
    Option EventQueue → Option Event → ZrResult × Option EventQueue
unfolding try_push_no_drop_given
event_queue_try_push_no_drop none ev = (zr_err_invalid_argument, none)
event_queue_try_push_no_drop (some q) none = (zr_err_invalid_argument, some q)
event_queue_try_push_no_drop (some q) (some ev) =
    let (s, q') = try_push_no_drop_given q ev in (s, some q')

-- Allocates the payload, copies it and appends the event that `mk` makes of its offset: the common
-- end of the two functions below.
unfoldable pub store_payload : EventQueue → List ℕ → ℕ → (ℕ → Event) → ZrResult × EventQueue
store_payload q payload payload_len mk =
    let (granted, ring) = user_alloc q.ring payload_len in
    elim granted [
      | none ↦ (zr_err_limit, evq_unlock (record q { ring = ring }))
      | some off ↦
          let ring' =
            if payload_len != 0
            then record ring {
              user_bytes = write_at ring.user_bytes off (take payload_len payload);
            }
            else ring in
          (zr_ok, evq_unlock (append_event (record q { ring = ring' }) (mk off)))
    ]

abbrev pub user_event : ℕ → ℕ → ℕ → ℕ → Event
user_event time_ms tag payload_len off = record {
  body = user (record {
    tag = tag;
    byte_len = payload_len;
    hdr_reserved0 = 0;
    hdr_reserved1 = 0;
    payload_off = off;
    reserved0 = 0;
  });
  time_ms = time_ms;
  flags = 0;
}

abbrev pub paste_event : ℕ → ℕ → ℕ → Event
paste_event time_ms byte_len off = record {
  body =
      paste (record { byte_len = byte_len; hdr_reserved0 = 0; payload_off = off; reserved0 = 0 });
  time_ms = time_ms;
  flags = 0;
}

-- zr_event_queue_post_user
unfoldable pub post_user_given : EventQueue → ℕ → ℕ → List ℕ → ℕ → ZrResult × EventQueue
post_user_given q time_ms tag payload payload_len =
    if not (is_ready q) || (is_nil payload && (payload_len != 0))
    then (zr_err_invalid_argument, q)
    else if q.count == q.cap
    then (zr_err_limit, evq_unlock (evq_lock q))
    else if ltb q.ring.user_bytes_cap payload_len
    then (zr_err_limit, evq_unlock (evq_lock q))
    else store_payload (evq_lock q) payload payload_len (user_event time_ms tag payload_len)

unfoldable pub event_queue_post_user :
    Option EventQueue → ℕ → ℕ → List ℕ → ℕ → ZrResult × Option EventQueue
unfolding post_user_given
event_queue_post_user none time_ms tag payload payload_len = (zr_err_invalid_argument, none)
event_queue_post_user (some q) time_ms tag payload payload_len =
    let (s, q') = post_user_given q time_ms tag payload payload_len in (s, some q')

-- zr_event_queue_post_paste
unfoldable pub post_paste_given : EventQueue → ℕ → List ℕ → ℕ → ZrResult × EventQueue
post_paste_given q time_ms bytes byte_len =
    if not (is_ready q) || (is_nil bytes && (byte_len != 0))
    then (zr_err_invalid_argument, q)
    else if ltb q.ring.user_bytes_cap byte_len
    then (zr_err_limit, evq_unlock (evq_lock q))
    else if not (can_enqueue_paste_locked (evq_lock q) byte_len)
    then (zr_err_limit, evq_unlock (evq_lock q))
    else store_payload (make_room (evq_lock q)) bytes byte_len (paste_event time_ms byte_len)

unfoldable pub event_queue_post_paste :
    Option EventQueue → ℕ → List ℕ → ℕ → ZrResult × Option EventQueue
unfolding post_paste_given
event_queue_post_paste none time_ms bytes byte_len = (zr_err_invalid_argument, none)
event_queue_post_paste (some q) time_ms bytes byte_len =
    let (s, q') = post_paste_given q time_ms bytes byte_len in (s, some q')

-- zr_event_queue_pop over a given queue and out-parameter: `none` is `false`.
unfoldable pub pop_given : EventQueue → Option Event × EventQueue
pop_given q =
    if not (is_ready q)
    then (none, q)
    else if q.count == 0
    then (none, evq_unlock (evq_lock q))
    else (
      some (event_at q q.head),
      evq_unlock (record (evq_lock q) {
        head = add_u32 q.head 1 % q.cap;
        count = sub_u32 q.count 1;
        ring = free_payload (event_at q q.head).body q.ring;
      }),
    )

unfoldable pub event_queue_pop : Option EventQueue → Bool → Option Event × Option EventQueue
unfolding pop_given
event_queue_pop none has_out = (none, none)
event_queue_pop (some q) false = (none, some q)
event_queue_pop (some q) true = let (ev, q') = pop_given q in (ev, some q')

-- zr_event_queue_peek
unfoldable pub event_queue_peek : Option EventQueue → Bool → Option Event
event_queue_peek none has_out = none
event_queue_peek (some q) has_out =
    if not has_out || not (is_ready q)
    then none
    else if q.count == 0
    then none
    else some (event_at q q.head)

-- zr_event_queue_count
unfoldable pub event_queue_count : Option EventQueue → ℕ
event_queue_count none = 0
event_queue_count (some q) = if not (is_ready q) then 0 else q.count

-- The bounds tests of the two payload views; `some []` is the view of NULL and length 0.
unfoldable pub view_range : UserRing → ℕ → ℕ → Option (List ℕ)
view_range r payload_off out_len =
    if out_len == 0
    then some []
    else if is_nil r.user_bytes || (r.user_bytes_cap == 0)
    then none
    else if ltb r.user_bytes_cap payload_off
    then none
    else if ltb (sub_u32 r.user_bytes_cap payload_off) out_len
    then none
    else some (slice r.user_bytes payload_off out_len)

unfoldable pub user_view : UserRing → EventBody → Option (List ℕ)
unfolding view_range
user_view r (user u) = view_range r u.payload_off u.byte_len
user_view r _ = none

unfoldable pub paste_view : UserRing → EventBody → Option (List ℕ)
unfolding view_range
paste_view r (paste p) = view_range r p.payload_off p.byte_len
paste_view r _ = none

-- zr_event_queue_user_payload_view, with the bytes that the returned pointer and length denote.
unfoldable pub event_queue_user_payload_view :
    Option EventQueue → Option Event → Bool → Option (List ℕ)
unfolding user_view
event_queue_user_payload_view none ev has_out = none
event_queue_user_payload_view (some q) none has_out = none
event_queue_user_payload_view (some q) (some ev) has_out =
    if not (is_ready q) || not has_out then none else user_view q.ring ev.body

-- zr_event_queue_paste_payload_view
unfoldable pub event_queue_paste_payload_view :
    Option EventQueue → Option Event → Bool → Option (List ℕ)
unfolding paste_view
event_queue_paste_payload_view none ev has_out = none
event_queue_paste_payload_view (some q) none has_out = none
event_queue_paste_payload_view (some q) (some ev) has_out =
    if not (is_ready q) || not has_out then none else paste_view q.ring ev.body
