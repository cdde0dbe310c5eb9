-- ===== src/EventQueue/Run.antt =====
-- Sequences of calls on an event queue, from zr_event_queue_init on.
use zireael.Prelude.{ℕ, ◌^◌, ◌≤◌, ◌<◌, ◌≡◌, List, [], length, arith, some, subst}
use zireael.Result.{zr_ok}
use zireael.Event.{Event}
use zireael.EventQueue.{EventQueue, event_queue_init}
use zireael.EventQueue.Api.{
  push_given, try_push_no_drop_given, post_user_given, post_paste_given, pop_given,
}
use zireael.EventQueue.Items.{IsValid, items, queued, body_slots}
use zireael.EventQueue.Push.{push_given-push, try_push_no_drop_given-try_push, length-items}
use zireael.EventQueue.Post.{post_user_given-posted, post_paste_given-posted}
use zireael.EventQueue.Pop.{pop_given-first, AllViewed, IsValid-AllViewed}
use zireael.EventQueue.Init.{event_queue_init-IsValid}

-- One call. A pushed event owns no payload, as those that the input parser and the engine push.
pub data Step (q : EventQueue) : EventQueue → Type 0 where
  push : (ev : Event) → body_slots ev.body ≡ [] → Step q (push_given q ev).1
  try_push : (ev : Event) → body_slots ev.body ≡ [] → Step q (try_push_no_drop_given q ev).1
  post_user :
      (time_ms tag : ℕ) (payload : List ℕ) (n : ℕ)
      → n ≤ length payload
      → Step q (post_user_given q time_ms tag payload n).1
  post_paste :
      (time_ms : ℕ) (bytes : List ℕ) (n : ℕ)
      → n ≤ length bytes
      → Step q (post_paste_given q time_ms bytes n).1
  pop : Step q (pop_given q).1

pub data Reachable (q : EventQueue) : EventQueue → Type 0 where
  start : Reachable q q
  next : (q' q'' : EventQueue) → Reachable q q' → Step q' q'' → Reachable q q''

Step-IsValid : (q q' : EventQueue) → IsValid q → Step q q' → IsValid q'
Step-IsValid q _ v (push ev h) = (push_given-push q ev v h).1
Step-IsValid q _ v (try_push ev h) = (try_push_no_drop_given-try_push q ev v h).0
Step-IsValid q _ v (post_user time_ms tag payload n h) =
    (post_user_given-posted q time_ms tag payload n v h).0
Step-IsValid q _ v (post_paste time_ms bytes n h) =
    (post_paste_given-posted q time_ms bytes n v h).0
Step-IsValid q _ v pop = (pop_given-first q v).0

Reachable-IsValid : (q q' : EventQueue) → IsValid q → Reachable q q' → IsValid q'
Reachable-IsValid q _ v start = v
Reachable-IsValid q q'' v (next q' _ r s) = Step-IsValid q' q'' (Reachable-IsValid q q' v r) s

-- What a client may rely on between two calls.
pub record Served (q : EventQueue) : Type 0 where
  pub valid : IsValid q
  pub bounded : length (items q) ≤ q.cap
  pub viewed : AllViewed q.ring (queued q)

-- From an initialisation over arrays that hold what is announced, at least one and at most 2^31
-- events and fewer than 2^32 payload bytes, any sequence of pushes of events without payload, posts
-- of as many bytes as are announced, and pops leads to a valid queue, which holds no more events
-- than its capacity and whose payload views return the bytes of every queued event.
pub Reachable-Served :
    (events : List Event) (cap : ℕ) (bytes : List ℕ) (bytes_cap : ℕ) (q q' : EventQueue)
    → 0 < cap
    → cap ≤ length events
    → cap ≤ 2 ^ 31
    → bytes_cap ≤ length bytes
    → bytes_cap < 2 ^ 32
    → event_queue_init events cap bytes bytes_cap ≡ (zr_ok, some q)
    → Reachable q q'
    → Served q'
Reachable-Served events cap bytes bytes_cap q q' p a b c d e r =
    let (q0, e0, v0, _, _) = event_queue_init-IsValid events cap bytes bytes_cap p a b c d in
    let same : q0 ≡ q = cc in
    let v = Reachable-IsValid q q' (subst IsValid same v0) r in
    record {
      valid = v;
      bounded = omega (arith, length-items q', v.sound.array);
      viewed = IsValid-AllViewed q' v;
    }
