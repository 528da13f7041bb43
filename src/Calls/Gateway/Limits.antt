-- ===== src/Calls/Gateway/Limits.antt =====
-- The counters of the limits of attempts are apart from the calls, calls.gateway.ts.
use zevra_server.Prelude.{
  ℕ, String, Option, none, some, ◌≡◌, refl, ◌∙◌, sym, subst, eqb, Bool-cases, inl, inr,
}
use zevra_server.Redis.Laws.{by_link}
use zevra_server.Redis.{Redis, rate_limit_key}
use zevra_server.Redis.Values.{Command, live, can_count}
use zevra_server.Redis.Session.{Client}
use zevra_server.RateLimit.{CheckResult, fixed_window, window_from, check_rate_limit}
use zevra_server.Store.{Backend, World}
use zevra_server.Calls.State.Views.{named, fields}
use zevra_server.Calls.State.Mutual.{Joins, IsMutual}
use zevra_server.Calls.State.Users.{IsNewCall}
use zevra_server.Calls.Gateway.{allowed}

-- No name and no field of a call differs.
abbrev pub SameCalls : (r : Redis) → r.State → r.State → Type 0
SameCalls r s s' =
    ((t : ℕ) (u : String) → named r t s' u ≡ named r t s u)
    × ((t : ℕ) (id : String) → fields r t s' id ≡ fields r t s id)

module _ (r : Redis) where
  same-IsMutual :
      (now : ℕ) (s s' : r.State) → SameCalls r s s' → IsMutual r now s → IsMutual r now s'
  same-IsMutual now s s' (names, rooms) m t h u id k =
      subst (λ n. Joins n (fields r t s' id) u id) (λ i x. sym (names t x) i)
        (subst (λ fs. Joins (named r t s) fs u id) (sym (rooms t id))
          (m t h u id (sym (names t u) ∙ k)))

  same-IsNewCall :
      (now : ℕ) (s s' : r.State) (id : String)
      → SameCalls r s s'
      → IsNewCall r now s id
      → IsNewCall r now s' id
  same-IsNewCall now s s' id (names, rooms) (full, unnamed, empty) =
      (full, λ u k. unnamed u (sym (names now u) ∙ k), rooms now id ∙ empty)

  run-SameCalls :
      (now : ℕ) (scope id : String) (c : Command) (s : r.State)
      → SameCalls r s (r.run now (rate_limit_key scope id) c s)
  run-SameCalls now scope id c s = (
    λ t u. rw (r.entry_run now (rate_limit_key scope id) c s _) refl,
    λ t j. rw (r.entry_run now (rate_limit_key scope id) c s _) refl,
  )

  both-SameCalls : (s t u : r.State) → SameCalls r s t → SameCalls r t u → SameCalls r s u
  both-SameCalls s t u (a, b) (c, d) = (λ n x. c n x ∙ a n x, λ n x. d n x ∙ b n x)

  window-SameCalls :
      (now : ℕ) (scope id : String) (window_ms : ℕ) (s : r.State) (count : ℕ) (o : Option ℕ)
      → SameCalls r s (window_from r now (rate_limit_key scope id) window_ms s count o).0
  unfolding window_from
  window-SameCalls now scope id window_ms s count none = run-SameCalls now scope id _ s
  window-SameCalls now scope id window_ms s count (some d) = elim (Bool-cases (eqb count 1)) [
    | inl h ↦ rw h (run-SameCalls now scope id _ s)
    | inr h ↦ rw h ((λ t u. refl, λ t j. refl))
  ]

  fixed_window-SameCalls :
      (now : ℕ) (scope id : String) (window_ms : ℕ) (s : r.State)
      → SameCalls r s (fixed_window r now (rate_limit_key scope id) window_ms s).0
  unfolding fixed_window
  fixed_window-SameCalls now scope id window_ms s =
      elim (Bool-cases (can_count (live now (r.entry s (rate_limit_key scope id))))) [
        | inl c ↦ rw c (
            both-SameCalls s _ _ (run-SameCalls now scope id _ s)
              (window-SameCalls now scope id window_ms _ _ _))
        | inr c ↦ rw c ((λ t u. refl, λ t j. refl))
      ]

  check-SameCalls :
      (c : Client r) (scope id : String) (window_ms max_requests now : ℕ)
      → SameCalls r c.store
          (check_rate_limit r c (rate_limit_key scope id) window_ms max_requests now).0.store
  unfolding check_rate_limit
  check-SameCalls c scope id window_ms max_requests now =
      by_link (λ (d : Client r × CheckResult). SameCalls r c.store d.0.store)
        (fixed_window-SameCalls now scope id window_ms c.store) ((λ t u. refl, λ t j. refl)) c.link

module _ (b : Backend) (w : World b) (user_id scope : String) (window_ms max_requests now : ℕ) where
  abbrev pub counted : World b
  counted = (allowed b w user_id scope window_ms max_requests now).0

  pub allowed-SameCalls : SameCalls b.redis w.client.store counted.client.store
  unfolding allowed
  allowed-SameCalls = check-SameCalls b.redis w.client scope user_id window_ms max_requests now

  pub allowed-IsMutual :
      IsMutual b.redis now w.client.store → IsMutual b.redis now counted.client.store
  allowed-IsMutual = same-IsMutual b.redis now w.client.store counted.client.store allowed-SameCalls

  pub allowed-IsNewCall :
      (id : String)
      → IsNewCall b.redis now w.client.store id
      → IsNewCall b.redis now counted.client.store id
  allowed-IsNewCall id =
      same-IsNewCall b.redis now w.client.store counted.client.store id allowed-SameCalls
