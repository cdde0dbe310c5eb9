-- ===== src/UserRing.antt =====
-- src/core/zr_event_queue.c: the payload ring of the event queue, in which USER and PASTE events
-- store their bytes. The fields are the `user_*` fields of `zr_event_queue_t`. An array pointer is
-- the list of its cells, and NULL is the empty list. `ZR_ASSERT` is compiled out.
pub mod Layout
pub mod Moves
pub mod Alloc
pub mod Exact
pub mod Free
use zireael.Prelude.{
  is_nil, ℕ, ◌+◌, ◌-◌, ◌%◌, ◌^◌, Bool, true, false, ◌||◌, Option, none, some, List, [], ◌∷◌, ltb,
  leb, ◌==◌, ◌!=◌, if◌then◌else◌,
}

pub record UserRing : Type 0 where
  pub user_bytes : List ℕ
  pub user_bytes_cap : ℕ
  pub user_head : ℕ
  pub user_tail : ℕ
  pub user_used : ℕ
  pub user_pad_end : ℕ

-- `uint32_t` subtraction and addition wrap.
abbrev pub sub_u32 : ℕ → ℕ → ℕ
sub_u32 a b = (a + 2 ^ 32 - b) % 2 ^ 32

abbrev pub add_u32 : ℕ → ℕ → ℕ
add_u32 a b = (a + b) % 2 ^ 32

-- `tail += n; if (tail == cap) tail = 0;`
abbrev pub advance_tail : ℕ → ℕ → ℕ → ℕ
advance_tail cap tail n = if add_u32 tail n == cap then 0 else add_u32 tail n

-- The branch `user_tail >= user_head` of zr_evq_user_alloc_locked: at the end, or wrapped to 0 with
-- the bytes at the end as pad.
unfoldable pub alloc_end : UserRing → ℕ → Option ℕ × UserRing
alloc_end r n =
    let space_end = sub_u32 r.user_bytes_cap r.user_tail in
    if leb n space_end
    then (
      some r.user_tail,
      record r {
        user_tail = advance_tail r.user_bytes_cap r.user_tail n;
        user_used = add_u32 r.user_used n;
      },
    )
    else if r.user_pad_end != 0
    then (none, r)
    else if ltb r.user_head n
    then (none, r)
    else if ltb (sub_u32 (sub_u32 r.user_bytes_cap r.user_used) n) space_end
    then (none, r)
    else (
      some 0,
      record r {
        user_pad_end = space_end;
        user_tail = n;
        user_used = add_u32 (add_u32 r.user_used space_end) n;
      },
    )

-- The branch `user_tail < user_head`: between tail and head only.
unfoldable pub alloc_mid : UserRing → ℕ → Option ℕ × UserRing
alloc_mid r n = if ltb (sub_u32 r.user_head r.user_tail) n then (none, r) else (
  some r.user_tail,
  record r { user_tail = add_u32 r.user_tail n; user_used = add_u32 r.user_used n },
)

-- `if (q->user_used == 0u) { q->user_head = q->user_tail; q->user_pad_end = 0u; }`
unfoldable pub restart_empty : UserRing → UserRing
restart_empty r =
    if r.user_used == 0 then record r { user_head = r.user_tail; user_pad_end = 0 } else r

-- zr_evq_user_alloc_locked. `none` is `false`; a refusal may still have moved `user_head`.
unfoldable pub user_alloc : UserRing → ℕ → Option ℕ × UserRing
unfolding restart_empty
user_alloc r n =
    if n == 0
    then (some r.user_tail, r)
    else if is_nil r.user_bytes || (r.user_bytes_cap == 0)
    then (none, r)
    else if ltb (sub_u32 r.user_bytes_cap r.user_used) n
    then (none, r)
    else (let r' = restart_empty r in
        if leb r'.user_head r'.user_tail then alloc_end r' n else alloc_mid r' n)

-- `user_head += n; if (user_head >= cap) user_head -= cap; user_used -= n;`
unfoldable pub advance_head : UserRing → ℕ → UserRing
advance_head r n =
    let head = add_u32 r.user_head n in
    record r {
      user_head = if leb r.user_bytes_cap head then sub_u32 head r.user_bytes_cap else head;
      user_used = sub_u32 r.user_used n;
    }

-- Drops the pad once the head has reached it.
unfoldable pub skip_pad : UserRing → UserRing
skip_pad r =
    if r.user_pad_end != 0
    then (if r.user_head == sub_u32 r.user_bytes_cap r.user_pad_end
        then record r {
          user_used = sub_u32 r.user_used r.user_pad_end;
          user_pad_end = 0;
          user_head = 0;
        }
        else r)
    else r

unfoldable pub reset_empty : UserRing → UserRing
reset_empty r =
    if r.user_used == 0 then record r { user_head = 0; user_tail = 0; user_pad_end = 0 } else r

-- zr_evq_user_free_head_locked. Its `off` is read by an assertion only.
unfoldable pub user_free_head : UserRing → ℕ → UserRing
unfolding advance_head skip_pad reset_empty
user_free_head r n = if n == 0 then r else reset_empty (skip_pad (advance_head r n))
