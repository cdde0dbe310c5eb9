-- ===== src/EventQueue.antt =====
-- src/core/zr_event_queue.c: the bounded queue of normalized events. Every public function takes
-- the spin lock, works and releases it; a call is one atomic step, and `lock` shows that the flag
-- is clear again at the end. An array pointer is the list of its cells, and NULL is the empty list.
-- The static helpers are called with a queue and an event at hand, so their NULL tests have no
-- counterpart; those of the public functions do.
pub mod Api
pub mod Items
pub mod Store
pub mod Payload
pub mod Spec
pub mod Remove
pub mod Coalesce
pub mod Replace
pub mod Push
pub mod Post
pub mod Pop
pub mod Init
pub mod Run
mod Tests
use zireael.Prelude.{
  is_nil, ℕ, zero, suc, ◌+◌, ◌-◌, ◌%◌, ◌^◌, Bool, true, false, not, ◌&&◌, ◌||◌, Option, none, some,
  List, [], ◌∷◌, ltb, leb, ◌==◌, ◌!=◌, if◌then◌else◌, get_or, set, take,
}
use zireael.Prelude.Buffer.{write_at, slice}
use zireael.Result.{ZrResult, zr_ok, zr_err_invalid_argument, zr_err_limit}
use zireael.Event.{
  Event, EvPaste, EvUser, EventBody, paste, user, zero_event, is_resize_body,
  is_mouse_coalescible_body,
}
use zireael.UserRing.{UserRing, sub_u32, add_u32, user_alloc, user_free_head}

-- The `user_*` fields of the struct are those of `ring`.
pub record EventQueue : Type 0 where
  pub lock : Bool
  pub events : List Event
  pub cap : ℕ
  pub head : ℕ
  pub count : ℕ
  pub ring : UserRing
  pub dropped_total : ℕ
  pub dropped_due_to_full : ℕ
  pub dropped_user_due_to_full : ℕ
  pub dropped_coalesce_candidates : ℕ

-- The loop of `zr_evq_lock` ends with the flag set.
abbrev pub evq_lock : EventQueue → EventQueue
evq_lock q = record q { lock = true }

abbrev pub evq_unlock : EventQueue → EventQueue
evq_unlock q = record q { lock = false }

abbrev pub evq_index : EventQueue → ℕ → ℕ
evq_index q i = if q.cap == 0 then 0 else add_u32 q.head i % q.cap

abbrev pub event_at : EventQueue → ℕ → Event
event_at q idx = get_or q.events idx zero_event

abbrev pub evq_is_resize : Event → Bool
evq_is_resize ev = is_resize_body ev.body

abbrev pub evq_is_mouse_coalescible : Event → Bool
evq_is_mouse_coalescible ev = is_mouse_coalescible_body ev.body

-- The loop test: `want_resize && resize(cur)`, else `want_mouse && mouse(cur)`.
abbrev pub matches_kind : Bool → Bool → Event → Bool
matches_kind want_resize want_mouse cur =
    (want_resize && evq_is_resize cur) || (want_mouse && evq_is_mouse_coalescible cur)

-- The scan over `i < count`; the first argument counts the rounds that are left. `found_at` is an
-- `int`, kept as its 32-bit pattern: -1 is 2 ^ 32 - 1.
unfoldable pub coalesce_scan : ℕ → ℕ → EventQueue → Bool → Bool → ℕ → ℕ
coalesce_scan zero i q want_resize want_mouse found_at = found_at
coalesce_scan (suc rounds) i q want_resize want_mouse found_at =
    coalesce_scan rounds (i + 1) q want_resize want_mouse (
      if matches_kind want_resize want_mouse (event_at q (evq_index q i))
      then evq_index q i
      else found_at)

-- zr_evq_try_coalesce_locked
unfoldable pub try_coalesce_locked : EventQueue → Event → Bool × EventQueue
try_coalesce_locked q ev =
    let want_resize = evq_is_resize ev in
    let want_mouse = evq_is_mouse_coalescible ev in
    let found_at = coalesce_scan q.count 0 q want_resize want_mouse (2 ^ 32 - 1) in
    if q.count == 0
    then (false, q)
    else if not want_resize && not want_mouse
    then (false, q)
    else if leb (2 ^ 31) found_at
    then (false, q)
    else (
      true,
      record q {
        events = set q.events found_at ev;
        dropped_coalesce_candidates = add_u32 q.dropped_coalesce_candidates 1;
      },
    )

-- The payload that an event owns: nothing is freed for other types.
abbrev pub free_payload : EventBody → UserRing → UserRing
free_payload (user u) r = user_free_head r u.byte_len
free_payload (paste p) r = user_free_head r p.byte_len
free_payload _ r = r

abbrev pub is_user : EventBody → Bool
is_user (user u) = true
is_user _ = false

-- zr_evq_drop_head_locked
unfoldable pub drop_head_locked : EventQueue → EventQueue
drop_head_locked q =
    let head_ev = event_at q q.head in
    if q.count == 0 then q else (record q {
      head = add_u32 q.head 1 % q.cap;
      count = sub_u32 q.count 1;
      ring = free_payload head_ev.body q.ring;
      dropped_total = add_u32 q.dropped_total 1;
      dropped_due_to_full = add_u32 q.dropped_due_to_full 1;
      dropped_user_due_to_full =
          (if is_user head_ev.body
            then add_u32 q.dropped_user_due_to_full 1
            else q.dropped_user_due_to_full);
    })

-- zr_evq_can_enqueue_paste_locked, on a copy with the lock and the counters zeroed.
unfoldable pub can_enqueue_paste_locked : EventQueue → ℕ → Bool
can_enqueue_paste_locked q byte_len =
    let probe = record q {
      lock = false;
      dropped_total = 0;
      dropped_due_to_full = 0;
      dropped_user_due_to_full = 0;
      dropped_coalesce_candidates = 0;
    } in
    let probe' = if probe.count == probe.cap then drop_head_locked probe else probe in
    elim (user_alloc probe'.ring byte_len).0 [ none ↦ false | some off ↦ true ]

-- `tail = index(count); events[tail] = ev; count++;`
unfoldable pub append_event : EventQueue → Event → EventQueue
append_event q ev = record q {
  events = set q.events (evq_index q q.count) ev;
  count = add_u32 q.count 1;
}

-- zr_event_queue_init; the struct is zeroed, and the flag cleared.
unfoldable pub event_queue_init : List Event → ℕ → List ℕ → ℕ → ZrResult × Option EventQueue
event_queue_init events events_cap user_bytes user_bytes_cap =
    if is_nil events || (events_cap == 0)
    then (zr_err_invalid_argument, none)
    else if is_nil user_bytes && (user_bytes_cap != 0)
    then (zr_err_invalid_argument, none)
    else (
      zr_ok,
      some (record {
        lock = false;
        events = events;
        cap = events_cap;
        head = 0;
        count = 0;
        ring = record {
          user_bytes = user_bytes;
          user_bytes_cap = user_bytes_cap;
          user_head = 0;
          user_tail = 0;
          user_used = 0;
          user_pad_end = 0;
        };
        dropped_total = 0;
        dropped_due_to_full = 0;
        dropped_user_due_to_full = 0;
        dropped_coalesce_candidates = 0;
      }),
    )
