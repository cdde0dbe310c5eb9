-- ===== src/InputParser/Queue.antt =====
-- The input parser in front of the event queue: src/core/zr_input_parser.c pushes with
-- zr_event_queue_push and ignores its result.
use zireael.Prelude.{
  ℕ, zero, suc, ◌≡◌, Bool, true, false, List, [], Option, none, some, if◌then◌else◌, ltb,
}
use zireael.Event.{Event}
use zireael.EventQueue.{EventQueue}
use zireael.EventQueue.Api.{push_given}
use zireael.EventQueue.Items.{body_slots}
use zireael.InputParser.Extended.{
  Emitted, emit_extended_codepoint, parse_csi_u_key, parse_modify_other_keys_tilde,
}
use zireael.InputParser.Mouse.{parse_sgr_mouse}
use zireael.InputParser.Parse.{consume_escape, parse_one, parse_loop}

if_keeps {ℓ κ} :
    {A : Type ℓ} (R : A → Type κ) (b : Bool) {x y : A} → R x → R y → R (if b then x else y)
if_keeps R true p r = p
if_keeps R false p r = r

-- A property of the queue that a push of an event without payload keeps is kept by the parser.
module _ {Q : Type 0} (enqueue : Q → Event → Q) (P : Q → Type 0)
    (keep : (q : Q) (ev : Event) → body_slots ev.body ≡ [] → P q → P (enqueue q ev)) where
  abbrev Second : Bool × Q → Type 0
  Second r = P r.1

  abbrev First : Q × ℕ → Type 0
  First r = P r.0

  abbrev InQueue : Emitted Q → Type 0
  InQueue r = P r.queue

  abbrev After : Option (Q × ℕ) → Type 0
  After none = Unit {0}
  After (some r) = P r.0

  emit_keeps :
      (q : Q) (time_ms codepoint mods : ℕ)
      → P q
      → P (emit_extended_codepoint enqueue q time_ms codepoint mods).1
  unfolding emit_extended_codepoint
  emit_keeps q time_ms codepoint mods p = search (if_keeps Second, if_keeps P, keep) depth 12

  csi_u_keeps :
      (bytes : List ℕ) (len i time_ms : ℕ) (q : Q)
      → P q
      → P (parse_csi_u_key enqueue bytes len i time_ms q).queue
  unfolding parse_csi_u_key
  csi_u_keeps bytes len i time_ms q p = search (if_keeps InQueue, emit_keeps) depth 12

  other_keeps :
      (bytes : List ℕ) (len i time_ms : ℕ) (q : Q)
      → P q
      → P (parse_modify_other_keys_tilde enqueue bytes len i time_ms q).queue
  unfolding parse_modify_other_keys_tilde
  other_keeps bytes len i time_ms q p = search (if_keeps InQueue, emit_keeps) depth 12

  mouse_keeps :
      (bytes : List ℕ) (len i time_ms : ℕ) (q : Q)
      → P q
      → P (parse_sgr_mouse enqueue bytes len i time_ms q).queue
  unfolding parse_sgr_mouse
  mouse_keeps bytes len i time_ms q p = search (if_keeps InQueue, keep) depth 14

  consume_escape_keeps :
      (q : Q) (bytes : List ℕ) (len i time_ms : ℕ)
      → P q
      → P (consume_escape enqueue q bytes len i time_ms).0
  unfolding consume_escape
  consume_escape_keeps q bytes len i time_ms p =
      search (if_keeps First, keep, mouse_keeps, csi_u_keeps, other_keeps) depth 16

  parse_one_keeps :
      (stop : Bool) (bytes : List ℕ) (len time_ms : ℕ) (q : Q) (i : ℕ)
      → P q
      → After (parse_one enqueue stop bytes len time_ms q i)
  unfolding parse_one
  parse_one_keeps stop bytes len time_ms q i p =
      search (if_keeps After, keep, tt, consume_escape_keeps) depth 14

  round_keeps :
      (b : Bool) (o : Option (Q × ℕ)) (rest : Q × ℕ → Q × ℕ) (q : Q) (i : ℕ)
      → P q
      → After o
      → ((r : Q × ℕ) → P r.0 → P (rest r).0)
      → First (elim b [ false ↦ (q, i) | true ↦ elim o [ none ↦ (q, i) | some r ↦ rest r ] ])
  round_keeps false o rest q i p kept more = p
  round_keeps true none rest q i p kept more = p
  round_keeps true (some r) rest q i p kept more = more r kept

  pub parse_loop_keeps :
      (fuel : ℕ) (stop : Bool) (bytes : List ℕ) (len time_ms : ℕ) (q : Q) (i : ℕ)
      → P q
      → P (parse_loop enqueue fuel stop bytes len time_ms q i).0
  unfolding parse_loop
  parse_loop_keeps zero stop bytes len time_ms q i p = p
  parse_loop_keeps (suc fuel) stop bytes len time_ms q i p =
      round_keeps (ltb i len) (parse_one enqueue stop bytes len time_ms q i)
        (λ r. parse_loop enqueue fuel stop bytes len time_ms r.0 r.1) q i p
        (parse_one_keeps stop bytes len time_ms q i p)
        (λ r kept. parse_loop_keeps fuel stop bytes len time_ms r.0 r.1 kept)

-- `(void)zr_event_queue_push(q, &ev)`
abbrev pub queue_push : EventQueue → Event → EventQueue
queue_push q ev = (push_given q ev).1

-- The queue after pushes of events without payload, and after nothing else.
pub data Pushes (q : EventQueue) : EventQueue → Type 0 where
  no_push : Pushes q q
  then_push :
      (q' : EventQueue) (ev : Event)
      → body_slots ev.body ≡ []
      → Pushes q q'
      → Pushes q (queue_push q' ev)

-- Whatever the bytes and the mode, all that the input parser does to an event queue is to push events
-- without payload.
pub parse_loop-Pushes :
    (fuel : ℕ) (stop : Bool) (bytes : List ℕ) (len time_ms : ℕ) (q : EventQueue) (i : ℕ)
    → Pushes q (parse_loop queue_push fuel stop bytes len time_ms q i).0
parse_loop-Pushes fuel stop bytes len time_ms q i =
    parse_loop_keeps queue_push (Pushes q) (λ q' ev free p. then_push q' ev free p) fuel stop bytes
      len time_ms q i no_push
