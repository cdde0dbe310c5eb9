-- ===== src/EventQueue/Coalesce.antt =====
-- zr_evq_try_coalesce_locked: the scan finds the newest event of the kind, and replacing it in the
-- array is `Spec.replace_last` on the items.
use zireael.Prelude.{
  ℕ, zero, suc, ◌+◌, ◌-◌, ◌%◌, ◌^◌, ◌≤◌, ◌<◌, ◌≡◌, ◌≢◌, refl, ap, ap₂, ◌∙◌, inl, inr, Bool, true,
  false, not, ◌&&◌, List, [], ◌∷◌, length, set, get_or, arith, Option, none, some, Option-cases,
  if◌then◌else◌, ◌==◌, leb,
}
use zireael.Event.{Event, zero_event}
use zireael.UserRing.{add_u32}
use zireael.EventQueue.{
  EventQueue, coalesce_scan, try_coalesce_locked, event_at, evq_index, evq_is_resize,
  evq_is_mouse_coalescible, matches_kind,
}
use zireael.Prelude.Window.{window, length-window}
use zireael.EventQueue.Items.{IsArray, queued}
use native.Mathlib.Nat.{mod-add-mod, mod-lt, mod-eq_of_lt}

-- The place of the newest event that satisfies a test.
abbrev pub last_match : (Event → Bool) → List Event → Option ℕ
last_match p [] = none
last_match p (e ∷ es) = elim (last_match p es) [
  | some k ↦ some (suc k)
  | none ↦ if p e then some 0 else none
]

-- What the scan returns for it, from the `i`-th event on.
abbrev found : EventQueue → ℕ → ℕ → Option ℕ → ℕ
found q i acc none = acc
found q i acc (some k) = evq_index q (i + k)

pub index_mod :
    (q : EventQueue) (i : ℕ) → IsArray q → i ≤ q.count → evq_index q i ≡ (q.head + i) % q.cap
index_mod q i a le = ground arith

index_small : (q : EventQueue) (i : ℕ) → IsArray q → i ≤ q.count → evq_index q i < 2 ^ 31
index_small q i a le = ground (arith, mod-lt (q.head + i) a.cap_pos)

not_eq : (n : ℕ) → n ≢ 0 → (n == 0) ≡ false
not_eq n h = ground arith

not_le : (n : ℕ) → n < 2 ^ 31 → leb (2 ^ 31) n ≡ false
not_le n h = ground arith

scan_step :
    (q : EventQueue) (i acc : ℕ) (b : Bool) (rest : Option ℕ)
    → found q (i + 1) (if b then evq_index q i else acc) rest
      ≡ found q i acc (elim rest [ some k ↦ some (suc k) | none ↦ if b then some 0 else none ])
scan_step q i acc true none = ap (evq_index q) (omega arith)
scan_step q i acc false none = refl
scan_step q i acc b (some k) = ap (evq_index q) (omega arith)

coalesce_scan-found :
    (q : EventQueue) (wr wm : Bool) (rounds i acc : ℕ)
    → IsArray q
    → i + rounds ≤ q.count
    → coalesce_scan rounds i q wr wm acc
      ≡ found q i acc (
          last_match
            (matches_kind wr wm)
            (window zero_event q.cap q.events ((q.head + i) % q.cap) rounds))
unfolding coalesce_scan
coalesce_scan-found q wr wm zero i acc a le = refl
coalesce_scan-found q wr wm (suc rounds) i acc a le =
    let p = matches_kind wr wm in
    let b = p (event_at q (evq_index q i)) in
    let next = ((q.head + i) % q.cap + 1) % q.cap in
    let e : (q.head + (i + 1)) % q.cap ≡ next =
      rw mod-add-mod (ap (λ k. k % q.cap) (omega arith)) in
    let rest = λ (h : ℕ). last_match p (window zero_event q.cap q.events h rounds) in
    coalesce_scan-found q wr wm rounds (i + 1) (if b then evq_index q i else acc) a (omega arith)
    ∙ scan_step q i acc b (rest ((q.head + (i + 1)) % q.cap))
    ∙ ap₂
        (λ h k. found q i acc (elim (rest h) [
          | some k' ↦ some (suc k')
          | none ↦ if p (get_or q.events k zero_event) then some 0 else none
        ]))
        e (index_mod q i a (omega arith))

-- The scan of the whole queue, from -1.
whole_scan :
    (q : EventQueue) (wr wm : Bool)
    → IsArray q
    → coalesce_scan q.count 0 q wr wm (2 ^ 32 - 1)
      ≡ found q 0 (2 ^ 32 - 1) (last_match (matches_kind wr wm) (queued q))
whole_scan q wr wm a =
    let e : (q.head + 0) % q.cap ≡ q.head =
      ap (λ k. k % q.cap) (omega arith) ∙ mod-eq_of_lt a.head_in in
    coalesce_scan-found q wr wm q.count 0 (2 ^ 32 - 1) a (omega arith)
    ∙ ap
        (λ h.
          found q 0 (2 ^ 32 - 1)
            (last_match (matches_kind wr wm) (window zero_event q.cap q.events h q.count)))
        e

pub last_match_lt :
    (p : Event → Bool) (es : List Event) (k : ℕ) → last_match p es ≡ some k → k < length es
last_match_lt p [] k e = cc
last_match_lt p (x ∷ es) k e = elim (Option-cases (last_match p es)) [
  | inl z ↦ ground (arith, z)
  | inr (j, z) ↦ ground (arith, z, last_match_lt p es j z)
]

last_match_unwanted : (es : List Event) → last_match (matches_kind false false) es ≡ none
last_match_unwanted [] = refl
last_match_unwanted (e ∷ es) = rw (last_match_unwanted es)

abbrev pub kind_of : Event → Event → Bool
kind_of ev = matches_kind (evq_is_resize ev) (evq_is_mouse_coalescible ev)

-- Where an event of the kind is queued, the newest of them is replaced in the array.
abbrev pub replaced : EventQueue → Event → ℕ → EventQueue
replaced q ev k = record q {
  events = set q.events (evq_index q k) ev;
  dropped_coalesce_candidates = add_u32 q.dropped_coalesce_candidates 1;
}

abbrev pub outcome : EventQueue → Event → Option ℕ → Bool × EventQueue
outcome q ev none = (false, q)
outcome q ev (some k) = (true, replaced q ev k)

abbrev scan_of : EventQueue → Event → ℕ
scan_of q ev =
    coalesce_scan q.count 0 q (evq_is_resize ev) (evq_is_mouse_coalescible ev) (2 ^ 32 - 1)

not_found :
    (q : EventQueue) (ev : Event)
    → scan_of q ev ≡ 2 ^ 32 - 1
    → try_coalesce_locked q ev ≡ (false, q)
unfolding try_coalesce_locked
not_found q ev e = ground arith

found_at :
    (q : EventQueue) (ev : Event) (k : ℕ)
    → scan_of q ev ≡ evq_index q k
    → evq_index q k < 2 ^ 31
    → q.count ≢ 0
    → (not (evq_is_resize ev) && not (evq_is_mouse_coalescible ev)) ≡ false
    → try_coalesce_locked q ev ≡ (true, replaced q ev k)
unfolding try_coalesce_locked
found_at q ev k e small ne wanted =
    let small' : scan_of q ev < 2 ^ 31 = omega arith in
    rw (not_eq q.count ne, wanted, not_le (scan_of q ev) small')
      (ap
        (λ i. (
          true,
          record q {
            events = set q.events i ev;
            dropped_coalesce_candidates = add_u32 q.dropped_coalesce_candidates 1;
          },
        ))
        e)

wanted_of :
    (wr wm : Bool) (es : List Event) (k : ℕ)
    → last_match (matches_kind wr wm) es ≡ some k
    → (not wr && not wm) ≡ false
wanted_of true wm es k e = refl
wanted_of false true es k e = refl
wanted_of false false es k e = cc (last_match_unwanted es)

pub try_coalesce-outcome :
    (q : EventQueue) (ev : Event)
    → IsArray q
    → try_coalesce_locked q ev ≡ outcome q ev (last_match (kind_of ev) (queued q))
try_coalesce-outcome q ev a = elim (Option-cases (last_match (kind_of ev) (queued q))) [
  | inl z ↦ rw z (
      not_found q ev (
        whole_scan q (evq_is_resize ev) (evq_is_mouse_coalescible ev) a
        ∙ ap (found q 0 (2 ^ 32 - 1)) z))
  | inr (k, z) ↦
      let lt : k < length (queued q) = last_match_lt (kind_of ev) (queued q) k z in
      let size : length (queued q) ≡ q.count =
        length-window zero_event q.cap q.events q.head q.count in
      rw z (
        found_at q ev k
          (whole_scan q (evq_is_resize ev) (evq_is_mouse_coalescible ev) a
            ∙ ap (found q 0 (2 ^ 32 - 1)) z
            ∙ ap (evq_index q) (omega arith))
          (index_small q k a (omega arith)) (omega arith)
          (wanted_of (evq_is_resize ev) (evq_is_mouse_coalescible ev) (queued q) k z))
]
