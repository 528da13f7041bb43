-- ===== src/Channels/Members.antt =====
-- src/modules/channels/channels.service.ts: adding and removing members, and archiving.
pub mod Earliest
pub mod Admins
pub mod Roster
pub mod Joining
mod Tests
use zevra_server.Prelude.{
  ℕ, ◌+◌, String, Bool, true, false, not, ◌&&◌, List, [], ◌∷◌, ◌++◌, Option, none, some, ◌==◌, any,
  find, keep, map, length, if◌then◌else◌, ltb, leb, eqb,
}
use zevra_server.Js.{string}
use zevra_server.Schema.{User, Channel, Membership}
use zevra_server.Sockets.{
  SocketService, emit_to_channel_and_users, join_users_to_channel, remove_user_from_channel,
}
use zevra_server.Redis.Session.{Client}
use zevra_server.Redis.Members.{invalidate}
use zevra_server.Redis.Cache.{reset_unread}
use zevra_server.Store.{Table, Backend, World, select, select_one}
use zevra_server.Errors.Thrown.{
  Thrown, Result, ok, thrown, not_found, forbidden, bad_request, conflict,
}
use zevra_server.Channels.{
  max_channel_participants, is_membership, is_in, is_admin_of, is_admin, new_membership, get_role,
}

pub record NewMember : Type 0 where
  pub membership_id : String
  pub user_id : String
  pub username : String

earlier : Membership → Option Membership → Option Membership
earlier m none = some m
earlier m (some k) = if leb m.joined_at k.joined_at then some m else some k

-- `ORDER BY joined_at LIMIT 1`
pub earliest : List Membership → Option Membership
unfolding earlier
earliest [] = none
earliest (m ∷ ms) = earlier m (earliest ms)

abbrev pub promote : Membership → Membership
promote m = record m { role = "ADMIN" }

or_member : Option String → String
or_member none = "MEMBER"
or_member (some role) = role

module _ (b : Backend) where
  abbrev touch : ℕ → String → b.channels.State → b.channels.State
  touch now channel_id =
      b.channels.update (λ c. c.id == channel_id) (λ c. record c { updated_at = now })

  -- The insertion and what follows it.
  join : World b → String → User → String → String → ℕ → World b × Result NewMember
  join w channel_id user role id now =
      if any (is_membership channel_id user.id) (b.memberships.rows w.memberships)
      then (w, thrown (conflict "User is already a member"))
      else (
        record w {
          memberships =
              b.memberships.insert (new_membership id role user.id channel_id now) w.memberships;
          channels = touch now channel_id w.channels;
          client = invalidate b.redis w.client channel_id now;
          socket =
              emit_to_channel_and_users (join_users_to_channel w.socket (user.id ∷ []) channel_id)
                channel_id (user.id ∷ []) "channel:member-added"
                (("channelId", string channel_id) ∷ ("userId", string user.id) ∷ []);
        },
        ok (record { membership_id = id; user_id = user.id; username = user.username }),
      )

  join_user : World b → String → String → String → ℕ → Option User → World b × Result NewMember
  join_user w channel_id role id now none = (w, thrown (not_found "User not found"))
  join_user w channel_id role id now (some user) =
      if leb (max_channel_participants + 1)
        (length (select b.memberships (is_in channel_id) w.memberships))
      then (w, thrown (bad_request "Channel is full"))
      else join w channel_id user role id now

  join_channel :
      World b → String → String → String → String → ℕ → Option Channel → World b × Result NewMember
  join_channel w channel_id new_user_id role id now none =
      (w, thrown (not_found "Channel not found"))
  join_channel w channel_id new_user_id role id now (some c) =
      if not (c.type == "GROUP")
      then (w, thrown (bad_request "Members can only be added to group channels"))
      else join_user w channel_id role id now
          (select_one b.users (λ u. u.id == new_user_id && u.is_active) w.users)

  -- `id` is the generated id of the membership.
  pub add_member :
      World b → String → String → String → Option String → String → ℕ → World b × Result NewMember
  unfolding or_member
  add_member w channel_id requester_id new_user_id role id now =
      if not (is_admin (get_role b w channel_id requester_id))
      then (w, thrown (forbidden "Only admins can add members"))
      else join_channel w channel_id new_user_id (or_member role) id now
          (select_one b.channels (λ c. c.id == channel_id) w.channels)

  -- The memberships after the promotion, and who was promoted.
  promote_oldest : b.memberships.State → Option Membership → b.memberships.State × Option String
  promote_oldest t none = (t, none)
  promote_oldest t (some oldest) =
      (b.memberships.update (λ m. m.id == oldest.id) promote t, some oldest.user_id)

  -- The transaction, once the membership is deleted.
  settle : String → Membership → b.memberships.State → b.memberships.State × Option String
  settle channel_id gone t =
      if gone.role == "ADMIN" && not (any (is_admin_of channel_id) (b.memberships.rows t))
      then promote_oldest t (earliest (select b.memberships (is_in channel_id) t))
      else (t, none)

  finish_remove :
      World b
      → String
      → String
      → ℕ
      → b.memberships.State × Option String
      → World b × Result (Option String)
  finish_remove w channel_id target_user_id now (t, promoted) = (
    record w {
      memberships = t;
      channels = touch now channel_id w.channels;
      client =
          reset_unread b.redis (invalidate b.redis w.client channel_id now) target_user_id
            channel_id now;
      socket =
          remove_user_from_channel
            (emit_to_channel_and_users w.socket channel_id (target_user_id ∷ [])
              "channel:member-removed"
              (("channelId", string channel_id) ∷ ("userId", string target_user_id) ∷ []))
            target_user_id channel_id;
    },
    ok promoted,
  )

  remove_found :
      World b → String → String → ℕ → Option Membership → World b × Result (Option String)
  remove_found w channel_id target_user_id now none =
      (w, thrown (not_found "Member not found in channel"))
  remove_found w channel_id target_user_id now (some gone) =
      finish_remove w channel_id target_user_id now (
        settle channel_id gone
          (b.memberships.delete (is_membership channel_id target_user_id) w.memberships))

  -- The result is the user that was promoted.
  pub remove_member : World b → String → String → String → ℕ → World b × Result (Option String)
  remove_member w channel_id requester_id target_user_id now =
      if not (requester_id == target_user_id)
        && not (is_admin (get_role b w channel_id requester_id))
      then (w, thrown (forbidden "Only admins can remove members"))
      else remove_found w channel_id target_user_id now
          (select_one b.memberships (is_membership channel_id target_user_id) w.memberships)

  archive_found : World b → String → ℕ → Option Channel → World b × Result Bool
  archive_found w channel_id now none = (w, thrown (not_found "Channel not found"))
  archive_found w channel_id now (some c) = (
    record w {
      channels =
          b.channels.update (λ x. x.id == channel_id)
            (λ x. record x { is_archived = not c.is_archived; updated_at = now }) w.channels;
    },
    ok (not c.is_archived),
  )

  pub archive : World b → String → String → ℕ → World b × Result Bool
  archive w channel_id user_id now =
      if not (is_admin (get_role b w channel_id user_id))
      then (w, thrown (forbidden "Only admins can archive channels"))
      else archive_found w channel_id now
          (select_one b.channels (λ c. c.id == channel_id) w.channels)
