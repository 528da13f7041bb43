-- ===== src/Calls/State/Users.antt =====
-- A new call, and the end of the call that a user's key names, calls.service.ts.
use zevra_server.Prelude.{ℕ, String, false, [], Option, none, some, ◌≡◌, refl, arith, ◌==◌}
use zevra_server.Errors.Thrown.{Result, ok, thrown}
use zevra_server.Redis.{Redis, Link, up, down, failing}
use zevra_server.Redis.Session.{Client}
use zevra_server.Calls.State.{
  ActiveCall, to_call, new_call, active, get_active_call, create_call, write_call,
  cleanup_user_call, cleanup_found, redis_error,
}
use zevra_server.Calls.State.Views.{named, fields}
use zevra_server.Calls.State.Mutual.{IsMutual}
use zevra_server.Calls.State.Writes.{write_call-IsMutual}
use zevra_server.Calls.State.Active.{IsCallOf, not_active-named, cleanup_call-IsMutual}

-- The id is new: no key names it, and it has no hash.
abbrev pub IsNewCall : (r : Redis) → ℕ → r.State → String → Type 0
IsNewCall r now s id =
    ((id == "") ≡ false) × ((u : String) → named r now s u ≡ some id → ⊥) × (fields r now s id ≡ [])

module _ (r : Redis) (now : ℕ) (c : Client r) (m : IsMutual r now c.store) where
  pub create_call-IsMutual :
      (a b : String) (log_id : Option String) (id : String)
      → IsNewCall r now c.store id
      → (a == "") ≡ false
      → (b == "") ≡ false
      → (a == b) ≡ false
      → get_active_call r c a now ≡ none
      → get_active_call r c b now ≡ none
      → IsMutual r now (create_call r c a b log_id id now).0.store
  unfolding create_call get_active_call
  create_call-IsMutual a b log_id id new ha hb differ free_a free_b = at_link c.link free_a free_b
    where
      at_link :
          (l : Link)
          → (let o : Option ActiveCall = elim l [ up ↦ active r now c.store a | _ ↦ none ] in o)
            ≡ none
          → (let o : Option ActiveCall = elim l [ up ↦ active r now c.store b | _ ↦ none ] in o)
            ≡ none
          → (let d : Client r × Result ActiveCall = elim l [
            | up ↦ (
              record c { store = write_call r (new_call a b log_id id now) now c.store },
              ok (new_call a b log_id id now),
            )
            | down ↦ (c, ok (new_call a b log_id id now))
            | failing ↦ (c, thrown redis_error)
          ] in
              IsMutual r now d.0.store)
      at_link up free_a free_b =
          write_call-IsMutual r now c.store (new_call a b log_id id now) new.0 ha hb differ m new.1
            new.2 (not_active-named r now c.store m a free_a)
            (not_active-named r now c.store m b free_b)
      at_link down _ _ = m
      at_link failing _ _ = m

  named-IsCallOf :
      (u id : String)
      → named r now c.store u ≡ some id
      → IsCallOf r now c.store u (to_call id (fields r now c.store id))
  named-IsCallOf u id h = (h, refl, m now (omega arith) u id h)

  cleanup_found-IsMutual :
      (u : String) (o : Option String)
      → named r now c.store u ≡ o
      → IsMutual r now (cleanup_found r c now o).0.store
  unfolding cleanup_found
  cleanup_found-IsMutual u none h = m
  cleanup_found-IsMutual u (some id) h = rw (named-IsCallOf u id h).2.0 (
      cleanup_call-IsMutual r now c m u (to_call id (fields r now c.store id))
        (named-IsCallOf u id h))

  pub cleanup_user_call-IsMutual :
      (u : String) → IsMutual r now (cleanup_user_call r c u now).0.store
  unfolding cleanup_user_call
  cleanup_user_call-IsMutual u = at_link c.link
    where
      at_link :
          (l : Link)
          → (let d : Client r × Result (Option ActiveCall) = elim l [
            | up ↦ (
              (cleanup_found r c now (named r now c.store u)).0,
              ok (cleanup_found r c now (named r now c.store u)).1,
            )
            | down ↦ (c, ok none)
            | failing ↦ (c, thrown redis_error)
          ] in
              IsMutual r now d.0.store)
      at_link up = cleanup_found-IsMutual u (named r now c.store u) refl
      at_link down = m
      at_link failing = m
