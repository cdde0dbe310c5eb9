-- ===== src/EventQueue/Items.antt =====
-- What a client sees of a queue: its events in order, each with the bytes of its payload and
-- without the place where they lie.
use zireael.Prelude.{
  ℕ, zero, suc, ◌^◌, ◌≤◌, ◌<◌, ◌≡◌, refl, sym, ap, ap₂, ◌∙◌, false, List, [], ◌∷◌, ◌++◌,
  append_assoc, length,
}
use zireael.Prelude.Buffer.{write_at, slice, slice-write_at_disjoint}
use zireael.Event.{
  Event, EventBody, invalid, key, text, paste, mouse, resize, tick, user, zero_event,
}
use zireael.UserRing.Layout.{Slot, Apart, Layout, IsRing}
use zireael.EventQueue.{EventQueue}
use zireael.Prelude.Window.{window}

-- A payload of no bytes takes no slot.
abbrev pub slot_at : ℕ → ℕ → List Slot
slot_at off zero = []
slot_at off (suc n) = record { off = off; len = suc n } ∷ []

abbrev pub body_slots : EventBody → List Slot
body_slots (user u) = slot_at u.payload_off u.byte_len
body_slots (paste p) = slot_at p.payload_off p.byte_len
body_slots _ = []

abbrev pub slots_of : List Event → List Slot
slots_of [] = []
slots_of (e ∷ es) = body_slots e.body ++ slots_of es

pub record Item : Type 0 where
  pub body : EventBody
  pub time_ms : ℕ
  pub flags : ℕ
  pub bytes : List ℕ

-- The body without the place of its payload.
abbrev pub placeless : EventBody → EventBody
placeless (user u) = user (record u { payload_off = 0 })
placeless (paste p) = paste (record p { payload_off = 0 })
placeless b = b

abbrev pub payload_in : List ℕ → EventBody → List ℕ
payload_in buf (user u) = slice buf u.payload_off u.byte_len
payload_in buf (paste p) = slice buf p.payload_off p.byte_len
payload_in buf _ = []

abbrev pub item_of : List ℕ → Event → Item
item_of buf e = record {
  body = placeless e.body;
  time_ms = e.time_ms;
  flags = e.flags;
  bytes = payload_in buf e.body;
}

abbrev pub queued : EventQueue → List Event
queued q = window zero_event q.cap q.events q.head q.count

abbrev pub items_of : List ℕ → List Event → List Item
items_of buf [] = []
items_of buf (e ∷ es) = item_of buf e ∷ items_of buf es

abbrev pub items : EventQueue → List Item
items q = items_of q.ring.user_bytes (queued q)

-- The array of events is in bounds. Up to 2 ^ 31 events no index wraps.
pub record IsArray (q : EventQueue) : Type 0 where
  pub cap_pos : 0 < q.cap
  pub cap_small : q.cap ≤ 2 ^ 31
  pub storage : q.cap ≤ length q.events
  pub head_in : q.head < q.cap
  pub count_in : q.count ≤ q.cap

-- The payloads of the queued events fill the ring in queue order as well.
pub record IsSound (q : EventQueue) : Type 0 where
  pub array : IsArray q
  pub is_ring : IsRing q.ring
  pub layout : Layout q.ring (slots_of (queued q))

-- What holds between two operations: the lock is free as well.
pub record IsValid (q : EventQueue) : Type 0 where
  pub unlocked : q.lock ≡ false
  pub sound : IsSound q

pub slots_of-append : (es fs : List Event) → slots_of (es ++ fs) ≡ slots_of es ++ slots_of fs
slots_of-append [] fs = refl
slots_of-append (e ∷ es) fs =
    ap (λ l. body_slots e.body ++ l) (slots_of-append es fs)
    ∙ sym (append_assoc (body_slots e.body) (slots_of es) (slots_of fs))

pub items_of-append :
    (buf : List ℕ) (es fs : List Event)
    → items_of buf (es ++ fs) ≡ items_of buf es ++ items_of buf fs
items_of-append buf [] fs = refl
items_of-append buf (e ∷ es) fs = ap (λ l. item_of buf e ∷ l) (items_of-append buf es fs)

slice-write_slot :
    (buf src : List ℕ) (o a n : ℕ) (rest : List Slot)
    → Apart o (length src) (slot_at a n ++ rest)
    → slice (write_at buf o src) a n ≡ slice buf a n
slice-write_slot buf src o a zero rest h = refl
slice-write_slot buf src o a (suc n) rest h = slice-write_at_disjoint buf o src a (suc n) h.0

Apart-tail : (o n : ℕ) (ss ts : List Slot) → Apart o n (ss ++ ts) → Apart o n ts
Apart-tail o n [] ts h = h
Apart-tail o n (s ∷ ss) ts (p, h) = Apart-tail o n ss ts h

payload_in-write_at :
    (buf src : List ℕ) (o : ℕ) (b : EventBody) (rest : List Slot)
    → Apart o (length src) (body_slots b ++ rest)
    → payload_in (write_at buf o src) b ≡ payload_in buf b
payload_in-write_at buf src o (user u) rest h =
    slice-write_slot buf src o u.payload_off u.byte_len rest h
payload_in-write_at buf src o (paste p) rest h =
    slice-write_slot buf src o p.payload_off p.byte_len rest h
payload_in-write_at buf src o invalid rest h = refl
payload_in-write_at buf src o (key k) rest h = refl
payload_in-write_at buf src o (text t) rest h = refl
payload_in-write_at buf src o (mouse m) rest h = refl
payload_in-write_at buf src o (resize z) rest h = refl
payload_in-write_at buf src o (tick t) rest h = refl

-- A write that meets no slot changes no item.
pub items_of-write_at :
    (buf src : List ℕ) (o : ℕ) (es : List Event)
    → Apart o (length src) (slots_of es)
    → items_of (write_at buf o src) es ≡ items_of buf es
items_of-write_at buf src o [] h = refl
items_of-write_at buf src o (e ∷ es) h =
    let p = payload_in-write_at buf src o e.body (slots_of es) h in
    ap₂ ◌∷◌
      (λ i. record { body = placeless e.body; time_ms = e.time_ms; flags = e.flags; bytes = p i })
      (items_of-write_at buf src o es
        (Apart-tail o (length src) (body_slots e.body) (slots_of es) h))
