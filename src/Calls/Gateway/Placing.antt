-- ===== src/Calls/Gateway/Placing.antt =====
-- A call that is placed keeps calls mutual, calls.gateway.ts.
use zevra_server.Prelude.{
  ℕ, String, false, Option, none, some, ◌≡◌, refl, sym, subst, ◌==◌, false≢true,
}
use zevra_server.Errors.Thrown.{Result, ok, thrown}
use zevra_server.Redis.Session.{Client}
use zevra_server.Store.{Backend, World}
use zevra_server.Calls.State.{ActiveCall, get_active_call, create_call}
use zevra_server.Calls.State.Mutual.{IsMutual}
use zevra_server.Calls.State.Users.{IsNewCall, create_call-IsMutual}
use zevra_server.Calls.Logs.{create_call_log}
use zevra_server.Calls.Logs.Client.{create_call_log-client}
use zevra_server.Calls.Gateway.{
  Reply, Fresh, webrtc, place_call, logged, created, is_some, active_call,
}
use zevra_server.Calls.Gateway.Steps.{Kept, Kept-as}

module _ (b : Backend) where
  -- The user is in no call.
  pub is_some-active :
      (w : World b) (user_id : String) (now : ℕ)
      → is_some (active_call b w user_id now) ≡ false
      → get_active_call b.redis w.client user_id now ≡ none
  unfolding active_call
  is_some-active w user_id now h = is_none (get_active_call b.redis w.client user_id now) h
    where
      is_none : (o : Option ActiveCall) → is_some o ≡ false → o ≡ none
      is_none none h = refl
      is_none (some c) h = absurd (false≢true (sym h))

  module _ (fresh : Fresh) (tell : World b → ActiveCall → World b) (reply : ActiveCall → Reply)
      (tell-client : (v : World b) (c : ActiveCall) → (tell v c).client ≡ v.client) where
    created-Kept :
        (v : World b) (x : Client b.redis × Result ActiveCall)
        → IsMutual b.redis fresh.now x.0.store
        → Kept b fresh.now (created b v fresh tell reply x).0
    unfolding created
    created-Kept v (c, ok call) m =
        Kept-as b fresh.now (record v { client = c }) (tell (record v { client = c }) call)
          (tell-client (record v { client = c }) call) m
    created-Kept v (c, thrown e) m = m

    module _ (w : World b) (user_id target_id : String) (m : Kept b fresh.now w)
        (new : IsNewCall b.redis fresh.now w.client.store fresh.call_id)
        (user : (user_id == "") ≡ false) (target : (target_id == "") ≡ false)
        (differ : (user_id == target_id) ≡ false)
        (free : get_active_call b.redis w.client user_id fresh.now ≡ none)
        (target_free : get_active_call b.redis w.client target_id fresh.now ≡ none) where
      logged-Kept :
          (x : World b × Result String)
          → x.0.client ≡ w.client
          → Kept b fresh.now (logged b user_id target_id fresh tell reply x).0
      unfolding logged
      logged-Kept (v, thrown e) h = Kept-as b fresh.now w v h m
      logged-Kept (v, ok id) h =
          created-Kept v
            (create_call b.redis v.client user_id target_id (some id) fresh.call_id fresh.now)
            (subst
              (λ (c : Client b.redis).
                IsMutual b.redis fresh.now
                  (create_call b.redis c user_id target_id (some id) fresh.call_id
                    fresh.now).0.store)
              (sym h)
              (create_call-IsMutual b.redis fresh.now w.client m user_id target_id (some id)
                fresh.call_id new user target differ free target_free))

      pub place_call-Kept :
          (channel_id : Option String)
          → Kept b fresh.now (place_call b w user_id target_id channel_id fresh tell reply).0
      unfolding place_call
      place_call-Kept channel_id =
          logged-Kept
            (create_call_log b w (webrtc user_id (some target_id) channel_id) fresh.log_id
              fresh.now)
            (create_call_log-client b w _ _ _)
