-- ===== src/Messages/Deletion.antt =====
-- src/modules/messages/messages.service.ts: deleting a message.
pub mod Erasure
use zevra_server.Prelude.{
  ℕ, String, Bool, true, false, not, ◌&&◌, List, [], ◌∷◌, Option, none, some, ◌==◌, keep, map, leb,
  if◌then◌else◌,
}
use mathlib.Core.Option
use zevra_server.Js.{null, string}
use zevra_server.Schema.{Channel, Message, Reaction}
use zevra_server.Sockets.{emit_to_channel}
use zevra_server.Redis.Cache.{invalidate_messages}
use zevra_server.Store.{Table, Backend, World, select, select_one}
use zevra_server.Errors.Thrown.{Thrown, Result, ok, thrown, not_found, forbidden}

pub record DeletedMessage : Type 0 where
  pub message_id : String
  pub channel_id : String

abbrev pub erased : ℕ → Message → Message
erased now m = record m {
  is_deleted = true;
  encrypted_content = "";
  metadata = null;
  updated_at = now;
}

later : Message → Option Message → Option Message
later m none = some m
later m (some k) = if leb k.sequence_number m.sequence_number then some m else some k

-- `ORDER BY sequence_number DESC LIMIT 1`
pub newest : List Message → Option Message
unfolding later
newest [] = none
newest (m ∷ ms) = later m (newest ms)

is_last : String → Option Channel → Bool
is_last message_id none = false
is_last message_id (some c) = elim c.last_message_id [ some id ↦ id == message_id | none ↦ false ]

-- The preview of a channel points at `prev`, or at nothing.
abbrev pub previewing : ℕ → Option Message → Channel → Channel
previewing now prev c = record c {
  last_message_id = Option.map (λ m. m.id) prev;
  last_message_at = Option.map (λ m. m.created_at) prev;
  updated_at = now;
}

module _ (b : Backend) where
  -- The channels after the transaction, whose messages are `t`.
  repoint : World b → b.messages.State → String → String → ℕ → Bool → b.channels.State
  repoint w t channel_id message_id now true =
      b.channels.update (λ c. c.id == channel_id)
        (previewing now (
          newest (
            select b.messages
              (λ m. m.channel_id == channel_id && not m.is_deleted && not (m.id == message_id)) t)))
        w.channels
  repoint w t channel_id message_id now false = w.channels

  pub erase : World b → Message → String → ℕ → World b
  unfolding is_last
  erase w msg message_id now =
      let t = b.messages.update (λ m. m.id == message_id) (erased now) w.messages in
      record w {
        messages = t;
        reactions = b.reactions.delete (λ r. r.message_id == message_id) w.reactions;
        channels =
            repoint w t msg.channel_id message_id now
              (is_last message_id (select_one b.channels (λ c. c.id == msg.channel_id) w.channels));
      }

  pub told : World b → Message → String → ℕ → World b
  told w msg message_id now = record w {
    client = invalidate_messages b.redis w.client msg.channel_id now;
    socket =
        emit_to_channel w.socket msg.channel_id "message:deleted"
          (("messageId", string message_id) ∷ ("channelId", string msg.channel_id) ∷ [])
          (record { except_socket_id = none; except_user_id = none });
  }

  unfoldable pub delete_found :
      World b → String → String → ℕ → Option Message → World b × Result DeletedMessage
  delete_found w user_id message_id now none = (w, thrown (not_found "Message not found"))
  delete_found w user_id message_id now (some msg) =
      if not (msg.sender_id == user_id)
      then (w, thrown (forbidden "Can only delete your own messages"))
      else (
        told (if msg.is_deleted then w else erase w msg message_id now) msg message_id now,
        ok (record { message_id = message_id; channel_id = msg.channel_id }),
      )

  unfoldable pub delete_message : World b → String → String → ℕ → World b × Result DeletedMessage
  delete_message w user_id message_id now =
      delete_found w user_id message_id now
        (select_one b.messages (λ m. m.id == message_id) w.messages)
