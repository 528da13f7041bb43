-- ===== src/Calls/Group/Keeping.antt =====
-- Calls stay mutual when a user starts one with call:initiate, calls.gateway.ts.
use zevra_server.Prelude.{
  String, Bool, true, false, not, ◌||◌, List, [], ◌∷◌, Option, none, some, ◌≡◌, refl, ◌∙◌, ◌==◌,
  Option-cases, Bool-cases, inl, inr, keep, by_test,
}
use zevra_server.Js.{JsValue, string, get, distinct_from}
use zevra_server.Errors.Thrown.{Result, ok, thrown}
use zevra_server.Redis.Session.{is_online}
use zevra_server.Schema.{User}
use zevra_server.Store.{Backend, World}
use zevra_server.Calls.Inputs.Targets.{target_of-differs, uuid_list-full}
use zevra_server.Livekit.{LiveKit, generate_token, get_group_room_name, authorize_room_access}
use zevra_server.Calls.State.Users.{IsNewCall}
use zevra_server.Calls.Logs.{create_call_log, get_usernames, name_in}
use zevra_server.Calls.Logs.Client.{create_call_log-client}
use zevra_server.Calls.Inputs.{
  uuid_list, channel_of, CallKind, dm, group, kind_of, target_of, livekit_log, max_group_targets,
}
use zevra_server.Calls.Gateway.{
  SocketUser, SocketClient, Reply, Fresh, user_of, is_some, active_call, allowed,
}
use zevra_server.Calls.Gateway.Limits.{allowed-IsMutual, allowed-IsNewCall}
use zevra_server.Calls.Gateway.Steps.{Kept, Kept-as}
use zevra_server.Calls.Gateway.Placing.{is_some-active, place_call-Kept}
use zevra_server.Calls.Gateway.Starting.Keeping.{HasUserId}
use zevra_server.Calls.Group.{
  started, invite_member, invite_members, group_logged, initiate_livekit_group_call, initiate_group,
  tell_started, initiate_dm, initiate_kind, initiate_limited, initiate_as, handle_initiate,
}

module _ (b : Backend) (l : LiveKit) where
  -- The invitations change nothing in Redis.
  invite_member-client :
      (user : SocketUser) (room : String) (names : List User) (id : String) (w : World b)
      → (invite_member b l user room names id w).client ≡ w.client
  unfolding invite_member
  invite_member-client user room names id w = elim (Option-cases (name_in names id)) [
    | inl e ↦ rw (e, invite_member) refl
    | inr (name, e) ↦ elim (Option-cases (generate_token l room id (string name))) [
      | inl e' ↦ rw (e, e', invite_member) refl
      | inr (token, e') ↦
          elim (Bool-cases ((name == "") || not (authorize_room_access b w room id))) [
            | inl h ↦ rw (e, e', h, invite_member) refl
            | inr h ↦ rw (e, e', h, invite_member) refl
          ]
    ]
  ]

  invite_members-client :
      (user : SocketUser) (room : String) (names : List User) (ids : List String) (w : World b)
      → (invite_members b l user room names ids w).client ≡ w.client
  unfolding invite_members
  invite_members-client user room names [] w = refl
  invite_members-client user room names (id ∷ ids) w =
      invite_members-client user room names ids (invite_member b l user room names id w)
      ∙ invite_member-client user room names id w

  group_logged-client :
      (user : SocketUser) (room : String) (ids : List String) (x : World b × Result String)
      → (group_logged b l user room ids x).0.client ≡ x.0.client
  unfolding group_logged
  group_logged-client user room ids (w, thrown e) = refl
  group_logged-client user room ids (w, ok id) =
      let candidates = distinct_from [] (keep (λ x. not (x == user.id)) ids) in
      invite_members-client user room (get_usernames b w candidates) candidates w

  initiate_group_call-client :
      (w : World b) (user : SocketUser) (channel : String) (ids : List String) (fresh : Fresh)
      → (initiate_livekit_group_call b l w user channel ids fresh).0.client ≡ w.client
  unfolding initiate_livekit_group_call
  initiate_group_call-client w user channel ids fresh =
      by_test (λ (x : World b × Reply). x.0.client ≡ w.client)
        (group_logged-client user (get_group_room_name channel) ids (
            create_call_log b w
              (livekit_log user.id none (get_group_room_name channel) (some channel)) fresh.log_id
              fresh.now)
          ∙ create_call_log-client b w _ _ _)
        refl l.is_configured

  initiate_group-client :
      (w : World b) (user : SocketUser) (channel : Option String) (ids : List String)
      (fresh : Fresh)
      → (initiate_group b l w user channel ids fresh).0.client ≡ w.client
  unfolding initiate_group
  initiate_group-client w user none ids fresh = refl
  initiate_group-client w user (some channel) ids fresh =
      by_test (λ (x : World b × Reply). x.0.client ≡ w.client)
        (initiate_group_call-client w user channel ids fresh) refl
        (authorize_room_access b w (get_group_room_name channel) user.id)

  module _ (fresh : Fresh) where
    initiate_dm-Kept :
        (w : World b) (user : SocketUser) (channel o : Option String)
        → Kept b fresh.now w
        → IsNewCall b.redis fresh.now w.client.store fresh.call_id
        → (user.id == "") ≡ false
        → is_some (active_call b w user.id fresh.now) ≡ false
        → ((id : String) → o ≡ some id → ((id == "") ≡ false) × ((user.id == id) ≡ false))
        → Kept b fresh.now (initiate_dm b l w user channel o fresh).0
    unfolding initiate_dm tell_started
    initiate_dm-Kept w user channel none m new hu free full = m
    initiate_dm-Kept w user channel (some id) m new hu free full =
        elim (Bool-cases (is_some (active_call b w id fresh.now))) [
          | inl e ↦ rw (e, initiate_dm) m
          | inr target_free ↦ elim (Bool-cases (not (is_online b.redis w.client id fresh.now))) [
            | inl e ↦ rw (target_free, e, initiate_dm) m
            | inr online ↦
                rw (target_free, online, initiate_dm)
                  (place_call-Kept b fresh (tell_started b l user id) (started fresh) (λ v c. refl)
                    w user.id id m new hu (full id refl).0 (full id refl).1
                    (is_some-active b w user.id fresh.now free)
                    (is_some-active b w id fresh.now target_free) channel)
          ]
        ]

    initiate_kind-Kept :
        (w : World b) (user : SocketUser) (kind : CallKind) (ids : List String)
        (channel : Option String)
        → Kept b fresh.now w
        → IsNewCall b.redis fresh.now w.client.store fresh.call_id
        → (user.id == "") ≡ false
        → is_some (active_call b w user.id fresh.now) ≡ false
        → ((id : String) → target_of user.id ids ≡ some id → (id == "") ≡ false)
        → Kept b fresh.now (initiate_kind b l w user kind ids channel fresh).0
    unfolding initiate_kind
    initiate_kind-Kept w user group ids channel m new hu free full =
        Kept-as b fresh.now w (initiate_group b l w user channel ids fresh).0
          (initiate_group-client w user channel ids fresh) m
    initiate_kind-Kept w user dm ids channel m new hu free full =
        initiate_dm-Kept w user channel (target_of user.id ids) m new hu free
          (λ id h. (full id h, target_of-differs user.id ids id h))

    initiate_limited-Kept :
        (user : SocketUser) (kind : CallKind) (ids : List String) (channel : Option String)
        (x : World b × Bool)
        → Kept b fresh.now x.0
        → IsNewCall b.redis fresh.now x.0.client.store fresh.call_id
        → (user.id == "") ≡ false
        → ((id : String) → target_of user.id ids ≡ some id → (id == "") ≡ false)
        → Kept b fresh.now (initiate_limited b l user kind ids channel fresh x).0
    unfolding initiate_limited
    initiate_limited-Kept user kind ids channel (w, false) m new hu full = m
    initiate_limited-Kept user kind ids channel (w, true) m new hu full =
        elim (Bool-cases (is_some (active_call b w user.id fresh.now))) [
          | inl e ↦ rw e m
          | inr free ↦ rw free (initiate_kind-Kept w user kind ids channel m new hu free full)
        ]

    initiate_as-Kept :
        (w : World b) (user : SocketUser) (kind : Option CallKind) (targets : Option (List String))
        (channel : Option (Option String))
        → Kept b fresh.now w
        → IsNewCall b.redis fresh.now w.client.store fresh.call_id
        → (user.id == "") ≡ false
        → ((ids : List String) (id : String)
            → targets ≡ some ids
            → target_of user.id ids ≡ some id
            → (id == "") ≡ false)
        → Kept b fresh.now (initiate_as b l w user kind targets channel fresh).0
    unfolding initiate_as
    initiate_as-Kept w user none targets channel m new hu full = m
    initiate_as-Kept w user (some kind) none channel m new hu full = m
    initiate_as-Kept w user (some kind) (some ids) none m new hu full = m
    initiate_as-Kept w user (some kind) (some ids) (some channel) m new hu full =
        initiate_limited-Kept user kind ids channel (allowed b w user.id "call" 5000 10 fresh.now)
          (allowed-IsMutual b w user.id "call" 5000 10 fresh.now m)
          (allowed-IsNewCall b w user.id "call" 5000 10 fresh.now fresh.call_id new) hu
          (λ id h. full ids id refl h)

    pub handle_initiate-Kept :
        (w : World b) (client : SocketClient) (body : JsValue)
        → Kept b fresh.now w
        → IsNewCall b.redis fresh.now w.client.store fresh.call_id
        → HasUserId client
        → Kept b fresh.now (handle_initiate b l w client body fresh).0
    unfolding handle_initiate
    handle_initiate-Kept w client body m new hu = elim (Option-cases (user_of client)) [
      | inl e ↦ rw (e, handle_initiate) m
      | inr (user, e) ↦
          rw (e, handle_initiate)
            (initiate_as-Kept w user (kind_of (get body "type"))
              (uuid_list (get body "targetUserIds") max_group_targets)
              (channel_of (get body "channelId")) m new (hu user e)
              (λ ids id h k.
                uuid_list-full (get body "targetUserIds") max_group_targets ids h user.id id k))
    ]
