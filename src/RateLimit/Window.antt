-- ===== src/RateLimit/Window.antt =====
-- What a fixed window allows.
use zevra_server.Prelude.{
  ℕ, suc, ◌+◌, ◌-◌, ◌<◌, ◌≡◌, refl, ◌∙◌, ap, List, [], ◌∷◌, none, some, arith, min, leb, length,
  keep, Bool-cases, inl, inr,
}
use zevra_server.Redis.{Redis, RedisKey}
use zevra_server.Redis.Laws.{entry-run_self}
use zevra_server.Redis.Values.{
  Entry, Value, counter, incr, pexpire, live, counter_of, effect, with_value, with_deadline,
  is_past, value_of, can_count,
}
use zevra_server.Store.Laws.{All}
use zevra_server.RateLimit.{window_from, fixed_window, deadline_of, hit_or}

abbrev pub counted : ℕ → ℕ → Entry
counted n deadline = record { value = counter n; deadline = some deadline }

add_one : (n : ℕ) → n + 1 ≡ suc n
add_one n = omega arith

module _ (r : Redis) (k : RedisKey) (window_ms : ℕ) where
  live-counted : (now n d : ℕ) → now < d → live now (some (counted n d)) ≡ some (counted n d)
  unfolding live is_past
  live-counted now n d l = ground arith

  effect-incr : (now n d : ℕ) → effect now incr (some (counted n d)) ≡ some (counted (suc n) d)
  unfolding effect with_value counter_of value_of can_count
  effect-incr now n d = ap (λ (m : ℕ). some (counted m d)) (add_one n)

  entry-incr :
      (now n d : ℕ) (s : r.State)
      → r.entry s k ≡ some (counted n d)
      → now < d
      → r.entry (r.run now k incr s) k ≡ some (counted (suc n) d)
  entry-incr now n d s e l =
      entry-run_self r now k incr s
      ∙ ap (λ x. effect now incr (live now x)) e
      ∙ ap (effect now incr) (live-counted now n d l)
      ∙ effect-incr now n d

  window_from-open :
      (now n d : ℕ) (s : r.State)
      → 0 < n
      → window_from r now k window_ms s (suc n) (some d)
        ≡ (s, record { count = suc n; ttl = d - now })
  unfolding window_from
  window_from-open now n d s h = ground arith

  -- A hit inside a window counts one more and leaves the window's end.
  fixed_window-inside :
      (now n d : ℕ) (s : r.State)
      → r.entry s k ≡ some (counted n d)
      → 0 < n
      → now < d
      → (r.entry (fixed_window r now k window_ms s).0 k ≡ some (counted (suc n) d))
        × ((fixed_window r now k window_ms s).1 ≡ some (record { count = suc n; ttl = d - now }))
  unfolding fixed_window deadline_of counter_of value_of can_count
  fixed_window-inside now n d s e h l =
      let step = entry-incr now n d s e l in
      rw
        (
          e,
          live-counted now n d l,
          step,
          live-counted now (suc n) d l,
          window_from-open now n d (r.run now k incr s) h,
        )
        (step, refl)

  window_from-first :
      (now : ℕ) (s : r.State)
      → window_from r now k window_ms s 1 none
        ≡ (r.run now k (pexpire window_ms) s, record { count = 1; ttl = window_ms })
  unfolding window_from
  window_from-first now s = refl

  entry-first :
      (now : ℕ) (s : r.State)
      → live now (r.entry s k) ≡ none
      → r.entry (r.run now k incr s) k ≡ some (record { value = counter 1; deadline = none })
  unfolding effect with_value counter_of value_of can_count
  entry-first now s e = entry-run_self r now k incr s ∙ ap (effect now incr) e

  live-first :
      (now : ℕ) (v : Value)
      → live now (some (record { value = v; deadline = none }))
        ≡ some (record { value = v; deadline = none })
  unfolding live is_past
  live-first now v = refl

  -- A hit that finds no window opens one.
  fixed_window-first :
      (now : ℕ) (s : r.State)
      → live now (r.entry s k) ≡ none
      → (r.entry (fixed_window r now k window_ms s).0 k ≡ some (counted 1 (now + window_ms)))
        × ((fixed_window r now k window_ms s).1 ≡ some (record { count = 1; ttl = window_ms }))
  unfolding fixed_window deadline_of counter_of value_of can_count effect with_deadline
  fixed_window-first now s e =
      let step = entry-first now s e in
      rw (e, step, live-first now (counter 1), window_from-first now (r.run now k incr s))
        (
          entry-run_self r now k (pexpire window_ms) (r.run now k incr s)
              ∙ ap (λ x. effect now (pexpire window_ms) (live now x)) step
              ∙ ap (effect now (pexpire window_ms)) (live-first now (counter 1)),
          refl,
        )

  -- The counts that hits at these times are answered.
  abbrev pub counts : List ℕ → r.State → List ℕ
  counts [] s = []
  counts (t ∷ ts) s =
      (hit_or window_ms (fixed_window r t k window_ms s).1).count
      ∷ counts ts (fixed_window r t k window_ms s).0

  counts-inside :
      (limit n d : ℕ) (ts : List ℕ) (s : r.State)
      → r.entry s k ≡ some (counted n d)
      → 0 < n
      → All (λ t. t < d) ts
      → length (keep (λ c. leb c limit) (counts ts s)) ≡ min (limit - n) (length ts)
  unfolding keep
  counts-inside limit n d [] s e h l = omega arith
  counts-inside limit n d (t ∷ ts) s e h (l, ls) =
      let (next, answer) = fixed_window-inside t n d s e h l in
      let rest =
        counts-inside limit (suc n) d ts (fixed_window r t k window_ms s).0 next (omega arith) ls in
      rw answer (elim (Bool-cases (leb (suc n) limit)) [
        | inl y ↦ rw y (ground (arith, rest))
        | inr y ↦ rw y (ground (arith, rest))
      ])

  -- Of the hits from the opening of a window to its end, as many have a count within a positive
  -- limit as the limit allows, or all if they are fewer.
  pub fixed_window-AllowsLimit :
      (limit opened : ℕ) (ts : List ℕ) (s : r.State)
      → 0 < limit
      → live opened (r.entry s k) ≡ none
      → All (λ t. t < opened + window_ms) ts
      → length (keep (λ c. leb c limit) (counts (opened ∷ ts) s)) ≡ min limit (length (opened ∷ ts))
  unfolding keep
  fixed_window-AllowsLimit limit opened ts s h e l =
      let (next, answer) = fixed_window-first opened s e in
      let rest =
        counts-inside limit 1 (opened + window_ms) ts (fixed_window r opened k window_ms s).0 next
          (omega arith) l in
      rw answer (elim (Bool-cases (leb 1 limit)) [
        | inl y ↦ rw y (ground (arith, rest))
        | inr y ↦ ground arith
      ])
