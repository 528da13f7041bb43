-- ===== src/Reactions.antt =====
-- src/modules/reactions/reactions.service.ts. Identifiers and times that Postgres generates are
-- arguments. The advisory lock makes the transaction of one user on one message a single step.
pub mod OnePerUser
pub mod Branches
pub mod Grouping
pub mod Groups
pub mod Unique
mod Tests
use zevra_server.Prelude.{
  ℕ, ◌+◌, String, Bool, true, false, not, ◌&&◌, List, [], ◌∷◌, ◌++◌, Option, none, some, ◌==◌, any,
  keep, map, if◌then◌else◌,
}
use zevra_server.Js.{string}
use zevra_server.Schema.{Message, Membership, Reaction}
use zevra_server.Reactions.Groups.{Group, group_rows, in_key_order}
use zevra_server.Sockets.{SocketService, EmitOptions, emit_to_channel}
use zevra_server.Store.{Table, Backend, World, select, select_one, insert_unless}
use zevra_server.Errors.Thrown.{Thrown, Result, ok, thrown, not_found, forbidden, bad_request}

pub record ReactionActor : Type 0 where
  pub id : String
  pub username : String

pub data Action : Type 0 where
  added already_exists : Action

pub record AddReactionResult : Type 0 where
  pub action : Action
  pub replaced : List String

pub data Removal : Type 0 where
  removed not_found_removal : Removal

abbrev pub is_mine : String → String → Reaction → Bool
is_mine message_id user_id r = r.message_id == message_id && r.user_id == user_id

abbrev pub has_emoji : String → Reaction → Bool
has_emoji emoji r = r.emoji == emoji

broadcast : SocketService → String → ReactionActor → String → String → String → SocketService
broadcast s event actor channel_id message_id emoji =
    emit_to_channel s channel_id event
      (("userId", string actor.id)
        ∷ ("username", string actor.username)
        ∷ ("messageId", string message_id)
        ∷ ("emoji", string emoji)
        ∷ ("channelId", string channel_id)
        ∷ [])
      (record { except_socket_id = none; except_user_id = some actor.id })

-- The loop over the replaced emojis.
broadcast_removed : SocketService → ReactionActor → String → String → List String → SocketService
broadcast_removed s actor channel_id message_id [] = s
broadcast_removed s actor channel_id message_id (e ∷ es) =
    broadcast_removed (broadcast s "reaction:removed" actor channel_id message_id e) actor
      channel_id message_id es

module _ (b : Backend) where
  check_target : World b → String → String → Option Message → Result Message
  check_target w user_id channel_id none = thrown (not_found "Message not found")
  check_target w user_id channel_id (some m) =
      if not (m.channel_id == channel_id)
      then thrown (not_found "Message not found")
      else if any (λ x. x.channel_id == m.channel_id && x.user_id == user_id)
          (b.memberships.rows w.memberships)
      then ok m
      else thrown (forbidden "Not a member of this channel")

  pub load_target : World b → String → String → String → Result Message
  load_target w user_id channel_id message_id =
      check_target w user_id channel_id (select_one b.messages (λ m. m.id == message_id) w.messages)

  -- The transaction of `addReaction`, and what it returns.
  pub record Replaced : Type 0 where
    pub table : b.reactions.State
    pub action : Action
    pub replaced : List String

  pub replace : b.reactions.State → String → String → String → String → ℕ → Replaced
  replace t message_id user_id emoji id now =
      let doomed = λ (r : Reaction). is_mine message_id user_id r && not (has_emoji emoji r) in
      let clash = λ (r : Reaction). is_mine message_id user_id r && has_emoji emoji r in
      let left = b.reactions.delete doomed t in
      record {
        table =
            insert_unless b.reactions clash
              (record {
                id = id;
                emoji = emoji;
                created_at = now;
                message_id = message_id;
                user_id = user_id;
              })
              left;
        action = if any clash (b.reactions.rows left) then already_exists else added;
        replaced = map (λ r. r.emoji) (select b.reactions doomed t);
      }

  announce : SocketService → ReactionActor → String → String → String → Action → SocketService
  announce s actor channel_id message_id emoji added =
      broadcast s "reaction:added" actor channel_id message_id emoji
  announce s actor channel_id message_id emoji already_exists = s

  pub finish_add :
      World b
      → ReactionActor
      → String
      → String
      → String
      → Replaced
      → World b × Result AddReactionResult
  finish_add w actor channel_id message_id emoji r = (
    record w {
      reactions = r.table;
      socket =
          announce (broadcast_removed w.socket actor channel_id message_id r.replaced) actor
            channel_id message_id emoji r.action;
    },
    ok (record { action = r.action; replaced = r.replaced }),
  )

  add_to :
      World b
      → ReactionActor
      → String
      → String
      → String
      → String
      → ℕ
      → Result Message
      → World b × Result AddReactionResult
  add_to w actor channel_id message_id emoji id now (thrown e) = (w, thrown e)
  add_to w actor channel_id message_id emoji id now (ok target) =
      if target.is_deleted
      then (w, thrown (bad_request "Message has been deleted"))
      else finish_add w actor channel_id message_id emoji
          (replace w.reactions message_id actor.id emoji id now)

  pub add_reaction :
      World b
      → ReactionActor
      → String
      → String
      → String
      → String
      → ℕ
      → World b × Result AddReactionResult
  add_reaction w actor channel_id message_id emoji id now =
      add_to w actor channel_id message_id emoji id now
        (load_target w actor.id channel_id message_id)

  remove_from :
      World b → ReactionActor → String → String → String → Result Message → World b × Result Removal
  remove_from w actor channel_id message_id emoji (thrown e) = (w, thrown e)
  remove_from w actor channel_id message_id emoji (ok target) =
      let mine = λ (r : Reaction). is_mine message_id actor.id r && has_emoji emoji r in
      if any mine (b.reactions.rows w.reactions)
      then (
        record w {
          reactions = b.reactions.delete mine w.reactions;
          socket = broadcast w.socket "reaction:removed" actor channel_id message_id emoji;
        },
        ok removed,
      )
      else (record w { reactions = b.reactions.delete mine w.reactions }, ok not_found_removal)

  pub remove_reaction :
      World b → ReactionActor → String → String → String → World b × Result Removal
  remove_reaction w actor channel_id message_id emoji =
      remove_from w actor channel_id message_id emoji (load_target w actor.id channel_id message_id)

module _ (b : Backend) where
  -- `Object.values` of the groups, unless the loop threw.
  values_of : Result (List Group) → Result (List Group)
  values_of (thrown e) = thrown e
  values_of (ok gs) = ok (in_key_order gs)

  grouped : World b → String → Result Message → Result (List Group)
  unfolding values_of
  grouped w message_id (thrown e) = thrown e
  grouped w message_id (ok target) =
      values_of (group_rows [] (select b.reactions (λ r. r.message_id == message_id) w.reactions))

  pub get_reactions : World b → String → String → String → Result (List Group)
  get_reactions w message_id user_id channel_id =
      grouped w message_id (load_target b w user_id channel_id message_id)
