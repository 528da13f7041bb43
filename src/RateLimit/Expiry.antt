-- ===== src/RateLimit/Expiry.antt =====
-- No counter is left without a time to live.
use zevra_server.Prelude.{
  ℕ, ◌+◌, ◌≡◌, refl, ◌∙◌, ap, Option, none, some, eqb, Bool-cases, inl, inr, true, false, ◌⊎◌,
}
use zevra_server.Redis.{Redis, RedisKey}
use zevra_server.Redis.Laws.{entry-run_self}
use zevra_server.Redis.Values.{
  Entry, Value, counter, incr, pexpire, live, counter_of, effect, with_value, with_deadline,
  is_past, can_count,
}
use zevra_server.RateLimit.{Hit, window_from, fixed_window, deadline_of}

live-with_value :
    (now : ℕ) (o : Option Entry) (v : Value)
    → (e : Entry) × (with_value (live now o) v ≡ some e) × (live now (some e) ≡ some e)
unfolding live with_value is_past
live-with_value now none v = (record { value = v; deadline = none }, refl, refl)
live-with_value now (some x) v = elim (Bool-cases (is_past now x.deadline)) [
  | inl h ↦ (record { value = v; deadline = none }, rw h refl, refl)
  | inr h ↦ (record x { value = v }, rw h refl, rw h refl)
]

module _ (r : Redis) (now : ℕ) (k : RedisKey) where
  -- The key holds an entry with a time at which it vanishes.
  abbrev pub Expires : r.State → Type 0
  Expires s = (e : Entry) × (d : ℕ) × (r.entry s k ≡ some e) × (e.deadline ≡ some d)

  pexpire-Expires :
      (ms : ℕ) (e : Entry) (s : r.State)
      → r.entry s k ≡ some e
      → live now (some e) ≡ some e
      → Expires (r.run now k (pexpire ms) s)
  unfolding effect with_deadline
  pexpire-Expires ms e s h l = (
    record e { deadline = some (now + ms) },
    now + ms,
    entry-run_self r now k (pexpire ms) s
        ∙ ap (λ x. effect now (pexpire ms) (live now x)) h
        ∙ ap (effect now (pexpire ms)) l,
    refl,
  )

  -- A hit that can count leaves an entry that has not vanished.
  incr-live :
      (s : r.State)
      → can_count (live now (r.entry s k)) ≡ true
      → (e : Entry) × (r.entry (r.run now k incr s) k ≡ some e) × (live now (some e) ≡ some e)
  unfolding effect
  incr-live s c =
      let (e, made, alive) =
        live-with_value now (r.entry s k) (counter (counter_of (live now (r.entry s k)) + 1)) in
      (e, entry-run_self r now k incr s ∙ rw c made, alive)

  window_from-Expires :
      (ms count : ℕ) (e : Entry) (s : r.State) (o : Option ℕ)
      → r.entry s k ≡ some e
      → live now (some e) ≡ some e
      → e.deadline ≡ o
      → Expires (window_from r now k ms s count o).0
  unfolding window_from
  window_from-Expires ms count e s none h l q = pexpire-Expires ms e s h l
  window_from-Expires ms count e s (some d) h l q = elim (Bool-cases (eqb count 1)) [
    | inl c ↦ rw c (pexpire-Expires ms e s h l)
    | inr c ↦ rw c (e, d, h, q)
  ]

  -- A hit finds nothing or a counter, and then it is answered and afterwards the key has a time to
  -- live, whether the counter had one or not; or it finds a value that INCR cannot count, and then
  -- the script fails and changes nothing.
  pub fixed_window-Expires :
      (window_ms : ℕ) (s : r.State)
      → let done = fixed_window r now k window_ms s in
        ((can_count (live now (r.entry s k)) ≡ true)
          × Expires done.0
          × ((h : Hit) × (done.1 ≡ some h)))
        ⊎ ((can_count (live now (r.entry s k)) ≡ false) × (done ≡ (s, none)))
  unfolding fixed_window deadline_of
  fixed_window-Expires window_ms s = elim (Bool-cases (can_count (live now (r.entry s k)))) [
    | inl c ↦
        let (e, here, alive) = incr-live s c in
        inl (
          c,
          rw (c, here, alive)
              (window_from-Expires window_ms (counter_of (some e)) e (r.run now k incr s) e.deadline
                here alive refl),
          rw c (_, refl),
        )
    | inr c ↦ inr (c, rw c refl)
  ]
