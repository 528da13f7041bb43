-- ===== src/Calls/Gateway/Starting/Keeping.antt =====
-- Calls stay mutual when a user invites another, calls.gateway.ts.
use zevra_server.Prelude.{
  String, Bool, true, false, not, Option, none, some, ◌≡◌, refl, ◌==◌, eq_iff, arith, Option-cases,
  Bool-cases, inl, inr,
}
use zevra_server.Js.{JsValue, get}
use zevra_server.Redis.Session.{is_online}
use zevra_server.Store.{Backend, World}
use zevra_server.Uuid.{uuid_of}
use zevra_server.Uuid.Extends.{uuid_of-full}
use zevra_server.Calls.State.Users.{IsNewCall}
use zevra_server.Calls.Gateway.{
  SocketUser, SocketClient, Fresh, user_of, is_some, active_call, allowed, tell_incoming,
}
use zevra_server.Calls.Gateway.Limits.{allowed-IsMutual, allowed-IsNewCall}
use zevra_server.Calls.Gateway.Steps.{Kept}
use zevra_server.Calls.Gateway.Placing.{is_some-active, place_call-Kept}
use zevra_server.Calls.Gateway.Starting.{
  invited, invite_allowed, invite_limited, invite_as, handle_invite,
}

-- A socket's user has an id.
abbrev pub HasUserId : SocketClient → Type 0
HasUserId client = (user : SocketUser) → user_of client ≡ some user → (user.id == "") ≡ false

module _ (b : Backend) (fresh : Fresh) where
  invite_allowed-Kept :
      (w : World b) (user : SocketUser) (target_id : String)
      → Kept b fresh.now w
      → IsNewCall b.redis fresh.now w.client.store fresh.call_id
      → (user.id == "") ≡ false
      → (target_id == "") ≡ false
      → (user.id == target_id) ≡ false
      → Kept b fresh.now (invite_allowed b w user target_id fresh).0
  unfolding invite_allowed
  invite_allowed-Kept w user target_id m new hu ht differ =
      elim (Bool-cases (is_some (active_call b w user.id fresh.now))) [
        | inl e ↦ rw (e, invite_allowed) m
        | inr free ↦ elim (Bool-cases (is_some (active_call b w target_id fresh.now))) [
          | inl e ↦ rw (free, e, invite_allowed) m
          | inr target_free ↦
              elim (Bool-cases (not (is_online b.redis w.client target_id fresh.now))) [
                | inl e ↦ rw (free, target_free, e, invite_allowed) m
                | inr online ↦
                    rw (free, target_free, online, invite_allowed)
                      (place_call-Kept b fresh (tell_incoming b user target_id) (invited fresh)
                        (λ v c. refl) w user.id target_id m new hu ht differ
                        (is_some-active b w user.id fresh.now free)
                        (is_some-active b w target_id fresh.now target_free) none)
              ]
        ]
      ]

  invite_limited-Kept :
      (user : SocketUser) (target_id : String) (x : World b × Bool)
      → Kept b fresh.now x.0
      → IsNewCall b.redis fresh.now x.0.client.store fresh.call_id
      → (user.id == "") ≡ false
      → (target_id == "") ≡ false
      → (user.id == target_id) ≡ false
      → Kept b fresh.now (invite_limited b user target_id fresh x).0
  unfolding invite_limited
  invite_limited-Kept user target_id (w, true) m new hu ht e =
      invite_allowed-Kept w user target_id m new hu ht e
  invite_limited-Kept user target_id (w, false) m _ _ _ _ = m

  invite_as-Kept :
      (w : World b) (user : SocketUser) (o : Option String)
      → Kept b fresh.now w
      → IsNewCall b.redis fresh.now w.client.store fresh.call_id
      → (user.id == "") ≡ false
      → ((id : String) → o ≡ some id → (id == "") ≡ false)
      → Kept b fresh.now (invite_as b w user o fresh).0
  unfolding invite_as
  invite_as-Kept w user none m new hu full = m
  invite_as-Kept w user (some id) m new hu full = elim (Bool-cases (id == user.id)) [
    | inl e ↦ rw e m
    | inr e ↦ rw e (
        invite_limited-Kept user id (allowed b w user.id "call" 5000 10 fresh.now)
          (allowed-IsMutual b w user.id "call" 5000 10 fresh.now m)
          (allowed-IsNewCall b w user.id "call" 5000 10 fresh.now fresh.call_id new) hu
          (full id refl) (ground (arith, eq_iff id user.id, eq_iff user.id id)))
  ]

  pub handle_invite-Kept :
      (w : World b) (client : SocketClient) (body : JsValue)
      → Kept b fresh.now w
      → IsNewCall b.redis fresh.now w.client.store fresh.call_id
      → HasUserId client
      → Kept b fresh.now (handle_invite b w client body fresh).0
  unfolding handle_invite
  handle_invite-Kept w client body m new hu = elim (Option-cases (user_of client)) [
    | inl e ↦ rw (e, handle_invite) m
    | inr (user, e) ↦
        rw (e, handle_invite)
          (invite_as-Kept w user (uuid_of (get body "targetUserId")) m new (hu user e)
            (λ id h. uuid_of-full (get body "targetUserId") id h))
  ]
