-- ===== src/EventQueue/Init.antt =====
-- zr_event_queue_init: the state that the operations start from.
use zireael.Prelude.{
  is_nil, true, false, ◌∷◌, ℕ, ◌^◌, ◌≤◌, ◌<◌, ◌≡◌, refl, List, [], arith, length, some,
}
use zireael.Result.{zr_ok}
use zireael.Event.{Event}
use zireael.UserRing.Layout.{flat}
use zireael.EventQueue.{EventQueue, event_queue_init}
use zireael.EventQueue.Items.{IsValid, items}

abbrev fresh : List Event → ℕ → List ℕ → ℕ → EventQueue
fresh events cap bytes bytes_cap = record {
  lock = false;
  events = events;
  cap = cap;
  head = 0;
  count = 0;
  ring = record {
    user_bytes = bytes;
    user_bytes_cap = bytes_cap;
    user_head = 0;
    user_tail = 0;
    user_used = 0;
    user_pad_end = 0;
  };
  dropped_total = 0;
  dropped_due_to_full = 0;
  dropped_user_due_to_full = 0;
  dropped_coalesce_candidates = 0;
}

nil_empty {ℓ} : {A : Type ℓ} (l : List A) → is_nil l ≡ true → length l ≡ 0
nil_empty [] h = refl
nil_empty (x ∷ xs) h = absurd (ground (arith, h))

init_accepts :
    (events : List Event) (cap : ℕ) (bytes : List ℕ) (bytes_cap : ℕ)
    → 0 < cap
    → cap ≤ length events
    → bytes_cap ≤ length bytes
    → event_queue_init events cap bytes bytes_cap ≡ (zr_ok, some (fresh events cap bytes bytes_cap))
unfolding event_queue_init
init_accepts events cap bytes bytes_cap p a c = ground (arith, nil_empty events, nil_empty bytes)

-- With arrays that hold what is announced, at least one and at most 2^31 events and fewer than 2^32
-- payload bytes, initialisation succeeds with a valid queue that has no event and the capacity given.
pub event_queue_init-IsValid :
    (events : List Event) (cap : ℕ) (bytes : List ℕ) (bytes_cap : ℕ)
    → 0 < cap
    → cap ≤ length events
    → cap ≤ 2 ^ 31
    → bytes_cap ≤ length bytes
    → bytes_cap < 2 ^ 32
    → (q : EventQueue) × (event_queue_init events cap bytes bytes_cap ≡ (zr_ok, some q))
      × IsValid q
      × (items q ≡ [])
      × (q.cap ≡ cap)
event_queue_init-IsValid events cap bytes bytes_cap p a b c d = (
  fresh events cap bytes bytes_cap,
  init_accepts events cap bytes bytes_cap p a c,
  record {
    unlocked = refl;
    sound = record {
      array = record {
        cap_pos = p;
        cap_small = b;
        storage = a;
        head_in = p;
        count_in = omega arith;
      };
      is_ring = record { storage = c; cap_u32 = d };
      layout = flat (record {
        chain = refl;
        ordered = omega arith;
        tail_in = omega arith;
        filled = omega arith;
        no_pad = refl;
        idle = omega arith;
      });
    };
  },
  refl,
  refl,
)
