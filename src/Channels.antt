-- ===== src/Channels.antt =====
-- src/modules/channels/channels.service.ts: roles, creation, members and archiving. Identifiers that
-- Postgres generates are arguments; a transaction under its lock is one step.
pub mod Direct
pub mod Members
pub mod Reading
use mathlib.Core.Option
use zevra_server.Prelude.{
  ℕ, ◌+◌, String, Bool, true, false, not, ◌&&◌, List, [], ◌∷◌, ◌++◌, Option, none, some, ◌==◌, any,
  find, keep, map, length, if◌then◌else◌, ltb, leb, eqb,
}
use zevra_server.Js.{
  JsValue, string, number, object, array, field, end, strings, string_or_null, distinct_from,
  includes,
}
use zevra_server.Schema.{User, Channel, Membership}
use zevra_server.Sockets.{
  SocketService, emit_to_users, emit_to_channel_and_users, join_users_to_channel,
  remove_user_from_channel,
}
use zevra_server.Redis.Session.{Client}
use zevra_server.Redis.Members.{set_members, invalidate}
use zevra_server.Redis.Cache.{reset_unread}
use zevra_server.Store.{Table, Backend, World, select, select_one, insert_unless}
use zevra_server.Errors.Thrown.{
  Thrown, Result, ok, thrown, not_found, forbidden, bad_request, conflict,
}

abbrev pub max_channel_participants : ℕ
max_channel_participants = 50

abbrev pub is_membership : String → String → Membership → Bool
is_membership channel_id user_id m = m.user_id == user_id && m.channel_id == channel_id

abbrev pub is_in : String → Membership → Bool
is_in channel_id m = m.channel_id == channel_id

abbrev pub is_admin_of : String → Membership → Bool
is_admin_of channel_id m = m.channel_id == channel_id && m.role == "ADMIN"

abbrev pub is_admin : Option String → Bool
is_admin none = false
is_admin (some role) = role == "ADMIN"

pub record ChannelSummary : Type 0 where
  pub id : String
  pub type : String
  pub name : Option String
  pub created_at : ℕ

pub record CreateChannelResult : Type 0 where
  pub channel : ChannelSummary
  pub created : Bool

abbrev pub summary : Channel → ChannelSummary
summary c = record { id = c.id; type = c.type; name = c.name; created_at = c.created_at }

-- The channel of an event; its time is in milliseconds.
abbrev channel_value : ChannelSummary → JsValue
channel_value c = object (
    field "id" (string c.id) (
      field "type" (string c.type)
        (field "name" (string_or_null c.name) (field "createdAt" (number c.created_at) end))))

-- The guards of `create` on the participants without repetitions.
refuse_direct : List String → String → Option Thrown
refuse_direct (x ∷ []) user_id =
    if x == user_id then some (bad_request "Cannot create DM with yourself") else none
refuse_direct _ user_id = some (bad_request "Direct message requires exactly 1 other participant")

refuse_create : String → List String → String → Option Thrown
unfolding refuse_direct
refuse_create type unique user_id =
    if type == "DIRECT"
    then refuse_direct unique user_id
    else if type == "GROUP"
    then if ltb max_channel_participants (length unique)
      then some (bad_request "A channel can have at most 50 participants")
      else none
    else some (bad_request "Invalid channel type")

abbrev pub new_membership : String → String → String → String → ℕ → Membership
new_membership id role user_id channel_id now = record {
  id = id;
  role = role;
  joined_at = now;
  left_at = none;
  muted = false;
  last_read_message_id = none;
  last_read_at = none;
  user_id = user_id;
  channel_id = channel_id;
}

-- `name || null`
abbrev name_or_null : Option String → Option String
name_or_null none = none
name_or_null (some s) = if s == "" then none else some s

-- What Postgres generates: the id of the channel, and that of the membership of each user.
pub record NewIds : Type 0 where
  pub channel : String
  pub membership : String → String

module _ (b : Backend) where
  pub get_role : World b → String → String → Option String
  get_role w channel_id user_id =
      Option.map (λ m. m.role)
        (select_one b.memberships (is_membership channel_id user_id) w.memberships)

  has_member : World b → Channel → String → Bool
  has_member w c user_id = any (is_membership c.id user_id) (b.memberships.rows w.memberships)

  insert_members : List Membership → b.memberships.State → b.memberships.State
  insert_members [] t = t
  insert_members (m ∷ ms) t = insert_members ms (b.memberships.insert m t)

  abbrev pub new_channel : NewIds → String → Option String → ℕ → Channel
  new_channel ids type name now = record {
    id = ids.channel;
    name = name;
    type = type;
    is_archived = false;
    last_message_id = none;
    last_message_at = none;
    created_at = now;
    updated_at = now;
  }

  insert_channel :
      World b
      → String
      → List String
      → String
      → Option String
      → NewIds
      → ℕ
      → World b × CreateChannelResult
  unfolding insert_members
  insert_channel w creator_id others type name ids now = (
    record w {
      channels = b.channels.insert (new_channel ids type name now) w.channels;
      memberships =
          insert_members
            (new_membership (ids.membership creator_id) "ADMIN" creator_id ids.channel now
              ∷ map (λ u. new_membership (ids.membership u) "MEMBER" u ids.channel now) others)
            w.memberships;
    },
    record { channel = summary (new_channel ids type name now); created = true },
  )

  direct_or_new :
      World b → String → String → NewIds → ℕ → Option Channel → World b × CreateChannelResult
  direct_or_new w user_id target_id ids now (some c) =
      (w, record { channel = summary c; created = false })
  direct_or_new w user_id target_id ids now none =
      insert_channel w user_id (target_id ∷ []) "DIRECT" none ids now

  -- `create` has refused a channel of a user with oneself, so the two ids differ and the query's
  -- COUNT(DISTINCT user_id) = 2 says that both are members. The lock of the pair leaves it one such
  -- channel, so LIMIT 1 has no choice.
  pub create_direct : World b → String → String → NewIds → ℕ → World b × CreateChannelResult
  create_direct w user_id target_id ids now = direct_or_new w user_id target_id ids now (
      select_one b.channels
        (λ c. c.type == "DIRECT" && (has_member w c user_id && has_member w c target_id))
        w.channels)

  announce_channel : World b → String → List String → ℕ → CreateChannelResult → World b
  announce_channel w user_id others now r =
      if r.created
      then record w {
        client = set_members b.redis w.client r.channel.id (user_id ∷ others) now;
        socket =
            emit_to_users (join_users_to_channel w.socket (user_id ∷ others) r.channel.id)
              (user_id ∷ others) "channel:created"
              (("channel", channel_value r.channel)
                ∷ ("memberIds", array (strings (user_id ∷ others)))
                ∷ ("createdBy", string user_id)
                ∷ []);
      }
      else record w { socket = join_users_to_channel w.socket (user_id ∷ []) r.channel.id }

  announced :
      String
      → List String
      → ℕ
      → World b × CreateChannelResult
      → World b × Result CreateChannelResult
  announced user_id others now (w, r) = (announce_channel w user_id others now r, ok r)

  create_with :
      World b
      → String
      → List String
      → String
      → Option String
      → NewIds
      → ℕ
      → World b × Result CreateChannelResult
  create_with w user_id [] type name ids now =
      (w, thrown (bad_request "At least one other participant is required"))
  create_with w user_id (o ∷ others) type name ids now =
      let found = select b.users (λ u. includes (o ∷ others) u.id && u.is_active) w.users in
      if not (eqb (length found) (length (o ∷ others)))
      then (w, thrown (not_found "One or more participants do not exist"))
      else announced user_id (o ∷ others) now (
          if type == "DIRECT"
          then create_direct w user_id o ids now
          else insert_channel w user_id (o ∷ others) "GROUP" (name_or_null name) ids now)

  create_or :
      World b
      → String
      → List String
      → String
      → Option String
      → NewIds
      → ℕ
      → Option Thrown
      → World b × Result CreateChannelResult
  create_or w user_id unique type name ids now (some e) = (w, thrown e)
  create_or w user_id unique type name ids now none =
      create_with w user_id (keep (λ id. not (id == user_id)) unique) type name ids now

  pub create :
      World b
      → String
      → List String
      → String
      → Option String
      → NewIds
      → ℕ
      → World b × Result CreateChannelResult
  create w user_id participant_ids type name ids now =
      let unique = distinct_from [] participant_ids in
      create_or w user_id unique type name ids now (refuse_create type unique user_id)
