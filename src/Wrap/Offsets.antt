-- ===== src/Wrap/Offsets.antt =====
-- zr_wrap_greedy_utf8: the line offsets that it writes.
use zireael.Prelude.{
  ℕ, ◌+◌, ◌*◌, ◌%◌, ◌^◌, ◌≤◌, ◌<◌, ◌≡◌, ◌≢◌, ◌⊎◌, inl, inr, sym, subst, ◌∙◌, true, false, List,
  some, length, set, get_or, ltb, arith, length-set, Bool-cases, is_nil_lem,
}
use zireael.Prelude.Window.{get_or-set_self, get_or-set_ne}
use zireael.Result.{zr_ok}
use zireael.Unicode.{UnicodeTables}
use zireael.Width.{WidthPolicy}
use zireael.Wrap.{WrapState, WrapOut, push_offset, wrap_start, wrap_loop, wrap_greedy_utf8}
use zireael.Wrap.Step.{IsReady, Moved, same_line, next_line}
use zireael.Wrap.Ends.{wrap_loop-keeps, start-IsReady, start_left}

-- The offsets written so far: they start at 0, rise, and end at the start of the current line; those
-- past the capacity are counted and flagged.
pub record IsRecorded (line_start : ℕ) (out : WrapOut) : Type 0 where
  pub room : out.cap ≤ length out.offsets
  pub counted : out.count ≤ line_start + 1
  pub some_line : 1 ≤ out.count
  pub flagged : out.truncated ≡ ltb out.cap out.count
  pub from_zero : 0 < out.cap → get_or out.offsets 0 0 ≡ 0
  pub rising :
      (i j : ℕ)
      → i < j
      → j < out.count
      → j < out.cap
      → get_or out.offsets i 0 < get_or out.offsets j 0
  pub within : (i : ℕ) → i < out.count → i < out.cap → get_or out.offsets i 0 ≤ line_start

module _ (start start' : ℕ) (out : WrapOut) (r : IsRecorded start out) (further : start < start')
    (small : start' + 1 < 2 ^ 64) where
  abbrev pushed : WrapOut
  pushed = push_offset start' out

  no_wrap : (out.count + 1) % 2 ^ 64 ≡ out.count + 1
  no_wrap = omega (arith, r.counted, further, small)

  fits_lem :
      out.count < out.cap
      → pushed ≡ record out { offsets = set out.offsets out.count start'; count = out.count + 1 }
  fits_lem h = ground (arith, no_wrap)

  full_lem : out.cap ≤ out.count → pushed ≡ record out { truncated = true; count = out.count + 1 }
  full_lem h = ground (arith, no_wrap)

  push_fits : out.count < out.cap → IsRecorded start' pushed
  push_fits h =
      let held : out.count < length out.offsets = omega (arith, h, r.room) in
      let own = get_or-set_self 0 out.offsets out.count start' held in
      let other : (i : ℕ)
          → i < out.count
          → get_or (set out.offsets out.count start') i 0 ≡ get_or out.offsets i 0 =
        λ i below. get_or-set_ne 0 out.offsets out.count i start' (λ e. absurd (omega arith)) in
      subst (IsRecorded start') (sym (fits_lem h)) (record {
        room = omega (arith, length-set out.offsets out.count start', r.room);
        counted = omega (arith, r.counted, further);
        some_line = omega arith;
        flagged = ground (arith, h, r.flagged);
        from_zero = λ given. other 0 (omega (arith, r.some_line)) ∙ r.from_zero given;
        rising = λ i j order counted below.
            ground (arith, own, other i, other j, r.rising i j, r.within i, further, h);
        within = λ i counted below. ground (arith, own, other i, r.within i, further, h);
      })

  push_full : out.cap ≤ out.count → IsRecorded start' pushed
  push_full h = subst (IsRecorded start') (sym (full_lem h)) (record {
    room = r.room;
    counted = omega (arith, r.counted, further);
    some_line = omega arith;
    flagged = ground (arith, h);
    from_zero = r.from_zero;
    rising = λ i j order counted below. r.rising i j order (omega arith) below;
    within = λ i counted below. ground (arith, r.within i, further);
  })

  push_offset-IsRecorded : IsRecorded start' pushed
  push_offset-IsRecorded = elim (Bool-cases (ltb out.count out.cap)) [
    | inl e ↦ push_fits (ground (arith, e))
    | inr e ↦ push_full (ground (arith, e))
  ]

abbrev Lines : WrapState → Type 0
Lines s = IsRecorded s.line_start s.out

module _ (bytes : List ℕ) (len : ℕ) (small : len + 1 < 2 ^ 64) where
  keep-Lines :
      (s s' : WrapState)
      → IsReady bytes len s
      → IsReady bytes len s'
      → Moved s s'
      → Lines s
      → Lines s'
  keep-Lines s s' ready ready' (same_line line out further) r =
      subst (λ o. IsRecorded s'.line_start o) (sym out)
        (subst (λ l. IsRecorded l s.out) (sym line) r)
  keep-Lines s s' ready ready' (next_line further out) r =
      let inside : s'.line_start + 1 < 2 ^ 64 =
        omega (arith, ready'.valid.within, ready'.same_len, ready'.started, small) in
      subst (λ o. IsRecorded s'.line_start o) (sym out)
        (push_offset-IsRecorded s.line_start s'.line_start s.out r further inside)

module _ (offsets : List ℕ) (cap : ℕ) (room : cap ≤ length offsets) where
  abbrev first_line : WrapOut
  first_line = push_offset 0 (record { offsets = offsets; cap = cap; count = 0; truncated = false })

  first_fits :
      0 < cap
      → first_line ≡ record { offsets = set offsets 0 0; cap = cap; count = 1; truncated = false }
  first_fits h = ground arith

  first_full :
      cap ≡ 0 → first_line ≡ record { offsets = offsets; cap = cap; count = 1; truncated = true }
  first_full h = ground arith

  first-IsRecorded : IsRecorded 0 first_line
  first-IsRecorded = elim (Bool-cases (ltb 0 cap)) [
    | inl e ↦
        (let own = get_or-set_self 0 offsets 0 0 (ground (arith, e, room)) in
          subst (IsRecorded 0) (sym (first_fits (ground (arith, e)))) (record {
            room = omega (arith, length-set offsets 0 0, room);
            counted = omega arith;
            some_line = omega arith;
            flagged = ground (arith, e);
            from_zero = λ given. own;
            rising = λ i j order counted below. absurd (omega (arith, order, counted));
            within = λ i counted below. ground (arith, own, counted);
          }))
    | inr e ↦
        (let none_left : cap ≡ 0 = ground (arith, e) in
          subst (IsRecorded 0) (sym (first_full none_left)) (record {
            room = room;
            counted = omega arith;
            some_line = omega arith;
            flagged = ground (arith, none_left);
            from_zero = λ given. absurd (omega (arith, given, none_left));
            rising = λ i j order counted below. absurd (omega (arith, below, none_left));
            within = λ i counted below. absurd (omega (arith, below, none_left));
          }))
  ]

IsRecorded-weaken : (a b : ℕ) (out : WrapOut) → a ≤ b → IsRecorded a out → IsRecorded b out
IsRecorded-weaken a b out h r = record {
  room = r.room;
  counted = omega (arith, r.counted, h);
  some_line = r.some_line;
  flagged = r.flagged;
  from_zero = r.from_zero;
  rising = r.rising;
  within = λ i counted below. omega (arith, r.within i counted below, h);
}

returned :
    (tables : UnicodeTables) (policy : WidthPolicy) (tab_stop max_cols : ℕ) (bytes : List ℕ)
    (len : ℕ) (offsets : List ℕ) (cap : ℕ)
    → tab_stop ≢ 0
    → max_cols ≢ 0
    → len ≤ length bytes
    → (room : cap ≤ length offsets)
    → (wrap_greedy_utf8 tables policy tab_stop bytes len max_cols offsets cap true true
        ≡ (zr_ok, some (first_line offsets cap room)))
      ⊎ (wrap_greedy_utf8 tables policy tab_stop bytes len max_cols offsets cap true true ≡ (
        zr_ok,
        some (
            WrapState.out (
              wrap_loop tables policy tab_stop
                ((len + 1) * (len + 1))
                max_cols
                (wrap_start bytes len (first_line offsets cap room)))),
      ))
unfolding wrap_greedy_utf8
returned tables policy tab_stop max_cols bytes len offsets cap stops columns fits room =
    ground (arith, stops, columns, is_nil_lem bytes, is_nil_lem offsets, fits, room)

-- With a tab stop and a column limit that are not zero, a text within its buffer whose length plus
-- one is below 2^64, and room for the stated number of offsets, zr_wrap_greedy_utf8 succeeds: it
-- counts at least one line and at most one more than there are bytes, says that the offsets are
-- truncated exactly when the lines are more than the room, and the offsets written are those of the
-- first lines: 0 first, strictly rising, none past the end of the text.
pub wrap_greedy_utf8-IsRecorded :
    (tables : UnicodeTables) (policy : WidthPolicy) (tab_stop max_cols : ℕ) (bytes : List ℕ)
    (len : ℕ) (offsets : List ℕ) (cap : ℕ)
    → tab_stop ≢ 0
    → max_cols ≢ 0
    → len ≤ length bytes
    → len + 1 < 2 ^ 64
    → cap ≤ length offsets
    → (out : WrapOut) × (wrap_greedy_utf8 tables policy tab_stop bytes len max_cols offsets cap true
          true
        ≡ (zr_ok, some out))
      × IsRecorded len out
wrap_greedy_utf8-IsRecorded tables policy tab_stop max_cols bytes len offsets cap stops columns fits
      small room =
    let start = first_line offsets cap room in
    let first = first-IsRecorded offsets cap room in
    let done =
      wrap_loop-keeps tables policy tab_stop max_cols bytes len Lines (keep-Lines bytes len small)
        ((len + 1) * (len + 1)) (wrap_start bytes len start)
        (start-IsReady bytes len start fits (omega (arith, small))) (start_left bytes len start)
        first in
    elim (returned tables policy tab_stop max_cols bytes len offsets cap stops columns fits room) [
      | inl e ↦ (start, e, IsRecorded-weaken 0 len start (omega arith) first)
      | inr e ↦ (
        _,
        e,
        IsRecorded-weaken _ len _
            (omega (arith, done.1.started, done.1.valid.within, done.1.same_len)) done.2,
      )
    ]
