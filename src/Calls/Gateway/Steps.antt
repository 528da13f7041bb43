-- ===== src/Calls/Gateway/Steps.antt =====
-- Every handler of calls keeps calls mutual, calls.gateway.ts.
use mathlib.Core.Option.{none-ne-some}
use zevra_server.Prelude.{
  ℕ, String, Option, none, some, ◌≡◌, refl, ◌∙◌, sym, subst, ◌==◌, Bool-cases, Option-cases, inl,
  inr,
}
use zevra_server.Js.{JsValue, get}
use zevra_server.Errors.Thrown.{Result, ok, thrown}
use zevra_server.Redis.Session.{Client}
use zevra_server.Errors.SocketAck.{SocketErrorAck}
use zevra_server.Store.{Backend, World}
use zevra_server.Calls.State.{ActiveCall, get_active_call, accept_call}
use zevra_server.Calls.State.Mutual.{IsMutual}
use zevra_server.Calls.State.Active.{
  IsCallOf, get_active_call-IsCallOf, accept_call-IsMutual, cleanup_call-IsMutual,
}
use zevra_server.Uuid.{uuid_of}
use zevra_server.Calls.Logs.Client.{create_call_log-client, end_call_log-client}
use zevra_server.Calls.Gateway.{
  SocketUser, SocketClient, Reply, refused, Fresh, log_found, log_of, finish, finish_connected_call,
  finish_logged, active_call, on_call, with_id, ringing_for, user_of, cleaned,
}

module _ (b : Backend) where
  log_found-client :
      (w : World b) (c : ActiveCall) (fresh : Fresh) (o : Option String)
      → (log_found b w c fresh o).0.client ≡ w.client
  unfolding log_found
  log_found-client w c fresh (some id) = refl
  log_found-client w c fresh none = create_call_log-client b w _ _ _

  pub log_of-client :
      (w : World b) (c : ActiveCall) (fresh : Fresh) → (log_of b w c fresh).0.client ≡ w.client
  unfolding log_of
  log_of-client w c fresh = log_found-client w c fresh c.call_log_id

  finish_logged-client :
      (c : ActiveCall) (fresh : Fresh) (x : World b × Result String)
      → (finish_logged b c fresh x).0.client ≡ x.0.client
  unfolding finish_logged
  finish_logged-client c fresh (w, ok id) = end_call_log-client b w id _ _ _ _ _
  finish_logged-client c fresh (w, thrown e) = refl

  pub finish-client :
      (w : World b) (c : ActiveCall) (fresh : Fresh) → (finish b w c fresh).0.client ≡ w.client
  unfolding finish finish_connected_call
  finish-client w c fresh = elim (Bool-cases (c.status == "connected")) [
    | inl h ↦ rw h (finish_logged-client c fresh (log_of b w c fresh) ∙ log_of-client w c fresh)
    | inr h ↦ rw h refl
  ]

  abbrev pub Kept : ℕ → World b → Type 0
  Kept now w = IsMutual b.redis now w.client.store

  pub Kept-as : (now : ℕ) (w v : World b) → v.client ≡ w.client → Kept now w → Kept now v
  Kept-as now w v h m = subst (λ (c : Client b.redis). IsMutual b.redis now c.store) (sym h) m

  -- Every call that is found is the user's own.
  abbrev pub Finds : ℕ → World b → String → Option ActiveCall → Type 0
  Finds now w user_id o =
      (c : ActiveCall)
      → o ≡ some c
      → (get_active_call b.redis w.client user_id now ≡ some c)
        × IsCallOf b.redis now w.client.store user_id c

  pub with_id-eq-some :
      (id : String) (o : Option ActiveCall) (c : ActiveCall) → with_id id o ≡ some c → o ≡ some c
  unfolding with_id
  with_id-eq-some id none c h = absurd (none-ne-some c h)
  with_id-eq-some id (some d) c h = elim (Bool-cases (d.call_id == id)) [
    | inl e ↦ rw e at h
    | inr e ↦ absurd (none-ne-some c (rw e at h))
  ]

  pub ringing_for-Finds :
      (now : ℕ) (w : World b) (user_id : String) (o : Option ActiveCall)
      → Finds now w user_id o
      → Finds now w user_id (ringing_for user_id o)
  unfolding ringing_for
  ringing_for-Finds now w user_id none f c h = absurd (none-ne-some c h)
  ringing_for-Finds now w user_id (some d) f c h = elim (Bool-cases (d.target_id == user_id)) [
    | inl e ↦ f c (rw e at h)
    | inr e ↦ absurd (none-ne-some c (rw e at h))
  ]

  pub with_id-Finds :
      (now : ℕ) (w : World b) (user_id id : String)
      → Kept now w
      → Finds now w user_id (with_id id (active_call b w user_id now))
  unfolding active_call
  with_id-Finds now w user_id id m c h =
      let found = with_id-eq-some id _ c h in
      (found, get_active_call-IsCallOf b.redis now w.client m user_id c found)

  -- A handler that takes the id of a call, by its action.
  pub on_call-cases :
      (P : World b × Reply → Type 0)
      → (w : World b) (client : SocketClient) (body : JsValue) (now : ℕ)
      → (act : SocketUser → Option ActiveCall → World b × Reply) → Kept now w
      → ((e : SocketErrorAck) → P (w, refused e))
      → ((user : SocketUser) (o : Option ActiveCall)
          → user_of client ≡ some user
          → Finds now w user.id o
          → P (act user o))
      → P (on_call b w client body now act)
  unfolding on_call
  on_call-cases P w client body now act m stay go = elim (Option-cases (user_of client)) [
    | inl e ↦ rw (e, on_call) (stay _)
    | inr (user, e) ↦
        rw (e, on_call)
          (elim (Option-cases (uuid_of (get body "callId"))) [
            | inl e' ↦ rw (e', on_call) (stay _)
            | inr (id, e') ↦ rw (e', on_call) (go user _ e (with_id-Finds now w user.id id m))
          ])
  ]

  module _ (now : ℕ) (w : World b) (user_id : String) (c : ActiveCall)
      (call : IsCallOf b.redis now w.client.store user_id c) (m : Kept now w) where
    pub cleaned-Kept : (v : World b) → v.client ≡ w.client → Kept now (cleaned b v c.call_id now)
    cleaned-Kept v h =
        cleanup_call-IsMutual b.redis now v.client (Kept-as now w v h m) user_id c
          (subst (λ (x : Client b.redis). IsCallOf b.redis now x.store user_id c) (sym h) call)

    pub accepted-Kept : (v : World b) → v.client ≡ accept_call b.redis w.client c now → Kept now v
    accepted-Kept v h =
        subst (λ (x : Client b.redis). IsMutual b.redis now x.store) (sym h)
          (accept_call-IsMutual b.redis now w.client m user_id c call)
