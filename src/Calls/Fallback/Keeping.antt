-- ===== src/Calls/Fallback/Keeping.antt =====
-- Calls in rooms of LiveKit leave the calls between two users alone, calls.gateway.ts.
use zevra_server.Prelude.{
  String, Bool, true, false, List, [], ◌∷◌, Option, none, some, ◌≡◌, refl, ◌∙◌, ◌==◌, Option-cases,
  Bool-cases, inl, inr, by_test,
}
use zevra_server.Js.{JsValue, string, get}
use zevra_server.Errors.Thrown.{Result, ok, thrown}
use zevra_server.Store.{Backend, World}
use zevra_server.Livekit.{LiveKit, generate_token, get_dm_room_name}
use zevra_server.Calls.Logs.{create_call_log, get_usernames, name_in}
use zevra_server.Calls.Logs.Client.{create_call_log-client}
use zevra_server.Calls.Inputs.{uuid_list, channel_of, target_of, livekit_log, max_group_targets}
use zevra_server.Calls.Gateway.{SocketUser, SocketClient, Reply, Fresh, user_of, allowed}
use zevra_server.Calls.Gateway.Limits.{allowed-IsMutual}
use zevra_server.Calls.Gateway.Steps.{Kept, Kept-as}
use zevra_server.Calls.Fallback.{
  invite_target, fallback_logged, fallback_to, fallback_limited, fallback_as,
  handle_livekit_fallback,
}

module _ (b : Backend) (l : LiveKit) where
  invite_target-client :
      (w : World b) (user : SocketUser) (room id : String) (o : Option String)
      → (invite_target b l w user room id o).client ≡ w.client
  unfolding invite_target
  invite_target-client w user room id none = refl
  invite_target-client w user room id (some name) =
      elim (Option-cases (generate_token l room id (string name))) [
        | inl e ↦ rw (e, invite_target) refl
        | inr (token, e) ↦ elim (Bool-cases (name == "")) [
          | inl h ↦ rw (e, h, invite_target) refl
          | inr h ↦ rw (e, h, invite_target) refl
        ]
      ]

  fallback_logged-client :
      (user : SocketUser) (id room : String) (x : World b × Result String)
      → (fallback_logged b l user id room x).0.client ≡ x.0.client
  unfolding fallback_logged
  fallback_logged-client user id room (w, thrown e) = refl
  fallback_logged-client user id room (w, ok log) =
      elim (Option-cases (generate_token l room user.id user.username)) [
        | inl e ↦ rw (e, fallback_logged) refl
        | inr (token, e) ↦
            rw (e, fallback_logged)
              (invite_target-client w user room id (name_in (get_usernames b w (id ∷ [])) id))
      ]

  fallback_to-client :
      (w : World b) (user : SocketUser) (o channel : Option String) (fresh : Fresh)
      → (fallback_to b l w user o channel fresh).0.client ≡ w.client
  unfolding fallback_to
  fallback_to-client w user none channel fresh = refl
  fallback_to-client w user (some id) channel fresh =
      let room = get_dm_room_name user.id id in
      fallback_logged-client user id room
        (create_call_log b w (livekit_log user.id (some id) room channel) fresh.log_id fresh.now)
      ∙ create_call_log-client b w _ _ _

  module _ (fresh : Fresh) where
    fallback_limited-Kept :
        (user : SocketUser) (ids : List String) (channel : Option String) (x : World b × Bool)
        → Kept b fresh.now x.0
        → Kept b fresh.now (fallback_limited b l user ids channel fresh x).0
    unfolding fallback_limited
    fallback_limited-Kept user ids channel (w, false) m = m
    fallback_limited-Kept user ids channel (w, true) m =
        Kept-as b fresh.now w (fallback_to b l w user (target_of user.id ids) channel fresh).0
          (fallback_to-client w user (target_of user.id ids) channel fresh) m

    fallback_as-Kept :
        (w : World b) (user : SocketUser) (targets : Option (List String))
        (channel : Option (Option String))
        → Kept b fresh.now w
        → Kept b fresh.now (fallback_as b l w user targets channel fresh).0
    unfolding fallback_as
    fallback_as-Kept w user none channel m = m
    fallback_as-Kept w user (some ids) none m = m
    fallback_as-Kept w user (some ids) (some channel) m =
        by_test (λ (x : World b × Reply). Kept b fresh.now x.0)
          (fallback_limited-Kept user ids channel (allowed b w user.id "call" 5000 10 fresh.now)
            (allowed-IsMutual b w user.id "call" 5000 10 fresh.now m))
          m l.is_configured

    pub handle_livekit_fallback-Kept :
        (w : World b) (client : SocketClient) (body : JsValue)
        → Kept b fresh.now w
        → Kept b fresh.now (handle_livekit_fallback b l w client body fresh).0
    unfolding handle_livekit_fallback
    handle_livekit_fallback-Kept w client body m = elim (Option-cases (user_of client)) [
      | inl e ↦ rw (e, handle_livekit_fallback) m
      | inr (user, e) ↦
          rw (e, handle_livekit_fallback)
            (fallback_as-Kept w user (uuid_list (get body "targetUserIds") max_group_targets)
              (channel_of (get body "channelId")) m)
    ]
