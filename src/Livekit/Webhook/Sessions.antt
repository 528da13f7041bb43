-- ===== src/Livekit/Webhook/Sessions.antt =====
-- The rows of a room over its sessions, livekit.webhook.ts.
use mathlib.Core.Option.{none-ne-some}
use zevra_server.Prelude.{
  ℕ, String, Bool, true, false, not, ◌||◌, append-nil, List, [], ◌∷◌, ◌++◌, Option, none, some, ◌≡◌,
  refl, ◌∙◌, ap, sym, arith, any, keep, keep-append, eq_refl, Bool-cases, Option-cases, inl, inr,
}
use zevra_server.Schema.{CallLog}
use zevra_server.Store.{Backend, World}
use zevra_server.Store.Laws.{any-update_where, keep-update_other}
use zevra_server.Store.Passing.{any-update_same, any_mono}
use zevra_server.Livekit.Webhook.{
  is_named, is_absent, is_room, is_open, newer, latest, fits, room_log, finished, started,
  handle_room_started, handle_room_finished,
}

module _ (b : Backend) where
  abbrev logs : World b → List CallLog
  logs w = b.call_logs.rows w.call_logs

  -- No row of the room is open, one is there, and the rows of other rooms are as before.
  abbrev pub Closes : String → World b → World b → Type 0
  Closes room w v =
      (any (is_open room) (logs v) ≡ false)
      × (any (is_room room) (logs v) ≡ true)
      × (keep (λ l. not (is_room room l)) (logs v) ≡ keep (λ l. not (is_room room l)) (logs w))

  latest-none : (l : List CallLog) → latest l ≡ none → l ≡ []
  unfolding latest
  latest-none [] h = refl
  latest-none (x ∷ l) h = absurd (none-ne-some _ (sym h))

  any-snoc :
      (p : CallLog → Bool) (l : List CallLog) (r : CallLog) → any p (l ++ r ∷ []) ≡ (any p l || p r)
  unfolding any
  any-snoc p [] r = ground arith
  any-snoc p (x ∷ l) r = ground (arith, any-snoc p l r)

  Closes-open :
      (w : World b) (room : String) (now : ℕ)
      → any (is_open room) (logs w) ≡ true
      → Closes room w
          (record w { call_logs = b.call_logs.update (is_open room) (finished now) w.call_logs })
  unfolding is_open is_absent is_room
  Closes-open w room now e =
      rw (b.call_logs.rows_update (is_open room) (finished now) w.call_logs) (
        any-update_where (is_open room) (is_open room) (finished now) (λ x _. ground arith)
            (λ x f. f) (logs w),
        any-update_same (is_room room) (is_open room) (finished now) (λ x. refl) (logs w)
            ∙ any_mono (is_open room) (is_room room) (λ x f. ground arith) (logs w) e,
        keep-update_other (λ l. not (is_room room l)) (is_open room) (finished now)
            (λ x f. (ground arith, ground arith)) (logs w),
      )

  Closes-new :
      (w : World b) (room : String) (r : CallLog)
      → any (is_open room) (logs w) ≡ false
      → is_open room r ≡ false
      → is_room room r ≡ true
      → Closes room w (record w { call_logs = b.call_logs.insert r w.call_logs })
  unfolding keep
  Closes-new w room r e f g = rw (b.call_logs.rows_insert r w.call_logs) (
    any-snoc (is_open room) (logs w) r ∙ rw (e, f) refl,
    any-snoc (is_room room) (logs w) r ∙ ground arith,
    keep-append (λ l. not (is_room room l)) (logs w) (r ∷ [])
        ∙ rw g (append-nil (keep (λ l. not (is_room room l)) (logs w))),
  )

  -- After the event that a room whose name fits its column has finished, the room has a row, no row
  -- of the room is open, and the rows of other rooms are as before, whether rows of the room were
  -- open or none was.
  pub handle_room_finished-Closes :
      (w : World b) (room id : String) (now : ℕ)
      → fits room ≡ true
      → Closes room w (handle_room_finished b w room id now)
  unfolding handle_room_finished is_open is_room is_named is_absent
  handle_room_finished-Closes w room id now h = elim (Bool-cases (any (is_open room) (logs w))) [
    | inl e ↦ rw (e, handle_room_finished) (Closes-open w room now e)
    | inr e ↦
        rw (e, handle_room_finished)
          (rw h (
            Closes-new w room (room_log room id now (some now) (some 0) "completed") e
              (ground arith) (eq_refl room)))
  ]

  started-existing :
      (w : World b) (room id : String) (now : ℕ) (l : CallLog)
      → latest (keep (is_open room) (logs w)) ≡ some l
      → handle_room_started b w room id now ≡ (w, some l.id)
  unfolding handle_room_started started
  started-existing w room id now l e = rw (e, handle_room_started) refl

  abbrev opened : World b → String → String → ℕ → World b
  opened w room id now = record w {
    call_logs = b.call_logs.insert (room_log room id now none none "missed") w.call_logs;
  }

  started-new :
      (w : World b) (room id : String) (now : ℕ)
      → fits room ≡ true
      → latest (keep (is_open room) (logs w)) ≡ none
      → handle_room_started b w room id now ≡ (opened w room id now, some id)
  unfolding handle_room_started started
  started-new w room id now h e = rw (e, handle_room_started) (rw h refl)

  opened-latest :
      (w : World b) (room id : String) (now : ℕ)
      → latest (keep (is_open room) (logs w)) ≡ none
      → latest (keep (is_open room) (logs (opened w room id now)))
        ≡ some (room_log room id now none none "missed")
  unfolding keep latest newer is_open is_room is_named is_absent
  opened-latest w room id now e =
      rw (b.call_logs.rows_insert (room_log room id now none none "missed") w.call_logs) (
        ap latest
          (keep-append (is_open room) (logs w) (room_log room id now none none "missed" ∷ []))
        ∙ rw (latest-none (keep (is_open room) (logs w)) e) (rw (eq_refl room) refl))

  -- A second event that a room whose name fits its column has started, right after the first,
  -- returns the same row and changes nothing, whether the first found an open row or made one.
  pub handle_room_started-again :
      (w : World b) (room id later_id : String) (now later : ℕ)
      → fits room ≡ true
      → handle_room_started b (handle_room_started b w room id now).0 room later_id later
        ≡ handle_room_started b w room id now
  handle_room_started-again w room id later_id now later h =
      elim (Option-cases (latest (keep (is_open room) (logs w)))) [
        | inl e ↦
            let first = started-new w room id now h e in
            again first (
              started-existing (opened w room id now) room later_id later _
                (opened-latest w room id now e))
        | inr (l, e) ↦
            again (started-existing w room id now l e) (started-existing w room later_id later l e)
      ]
    where
      again :
          {v : World b} {o : Option String}
          → handle_room_started b w room id now ≡ (v, o)
          → handle_room_started b v room later_id later ≡ (v, o)
          → handle_room_started b (handle_room_started b w room id now).0 room later_id later
            ≡ handle_room_started b w room id now
      again first second =
          ap (λ (y : World b × Option String). handle_room_started b y.0 room later_id later) first
          ∙ second
          ∙ sym first
