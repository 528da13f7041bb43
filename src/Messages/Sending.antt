-- ===== src/Messages/Sending.antt =====
-- src/modules/messages/messages.service.ts: sending a message. Ed25519, JSON.stringify and the answers
-- of Socket.IO and BullMQ are arguments; the transaction under the channel's row lock is one step.
pub mod Sequence
use zevra_server.Prelude.{
  ℕ, ◌+◌, ◌*◌, String, Bool, true, false, not, ◌&&◌, ◌||◌, List, [], ◌∷◌, Option, none, some, ◌==◌,
  any, keep, map, max, if◌then◌else◌, ltb, eqb,
}
use Prim.Native.String.{◌++◌}
use zevra_server.Js.{JsValue, undefined, null, object, array, includes}
use zevra_server.Schema.{User, Channel, Membership, Message}
use zevra_server.Sockets.{emit_to_channel}
use zevra_server.Redis.{Redis}
use zevra_server.Redis.Cache.{cache_message}
use zevra_server.Redis.Members.{get_members}
use zevra_server.Store.{Table, Backend, World, select, select_one}
use zevra_server.Errors.Thrown.{
  Thrown, Result, ok, thrown, forbidden, bad_request, payload_too_large,
}
use zevra_server.Messages.{
  MessagePayload, to_message_payload, payload_fields, MessageDeliveryJob, run_message_delivery,
  or_null,
}
use zevra_server.Messages.Limits.{SendMessageInput, assert_send_limits}
use zevra_server.Messages.Size.{byte_length, utf16_length, json_size}

or_empty : Option String → String
or_empty none = ""
or_empty (some s) = s

or_text : Option String → String
or_text none = "TEXT"
or_text (some t) = t

-- `coalesce(max(sequence_number), 0)`
pub max_sequence : List Message → ℕ
max_sequence [] = 0
max_sequence (m ∷ ms) = max m.sequence_number (max_sequence ms)

abbrev pub is_of : String → Message → Bool
is_of channel_id m = m.channel_id == channel_id

abbrev pub new_message : SendMessageInput → String → ℕ → ℕ → Message
unfolding or_empty or_text
new_message input id sequence now = record {
  id = id;
  message_type = or_text input.message_type;
  encrypted_content = input.encrypted_content;
  content_iv = input.content_iv;
  content_tag = input.content_tag;
  signature = or_empty input.signature;
  sequence_number = sequence;
  sender_key_epoch = input.sender_key_epoch;
  metadata = or_null input.metadata;
  is_deleted = false;
  created_at = now;
  updated_at = now;
  sender_id = input.user_id;
  channel_id = input.channel_id;
}

abbrev is_offline : Option (List String) → String → Bool
is_offline none id = true
is_offline (some connected) id = not (includes connected id)

-- What is not the server's own: `verify` is the crypto service's check of a signature under a
-- public key, `stringify` is `JSON.stringify`.
pub record Host : Type 0 where
  pub verify : String → String → String → Bool
  pub stringify : MessagePayload → String

-- What the outside answers to one call: the ids with a socket in the room, if that is known, and
-- whether the delivery queue accepts the job.
pub record Answers : Type 0 where
  pub connected : Option (List String)
  pub queue_accepts : Bool

module _ (b : Backend) where
  pub next_sequence : World b → String → ℕ
  next_sequence w channel_id = max_sequence (select b.messages (is_of channel_id) w.messages) + 1

  -- The transaction, one attempt of it: the catch for an insertion that meets the number is left out.
  pub insert_with_sequence : World b → SendMessageInput → String → ℕ → World b × Message
  insert_with_sequence w input id now =
      let msg = new_message input id (next_sequence w input.channel_id) now in
      (
        record w {
          messages = b.messages.insert msg w.messages;
          channels =
              b.channels.update (λ c. c.id == input.channel_id)
                (λ c. record c {
                  last_message_id = some id;
                  last_message_at = some now;
                  updated_at = now;
                })
                w.channels;
          memberships =
              b.memberships.update
                (λ m. m.user_id == input.user_id && m.channel_id == input.channel_id)
                (λ m. record m { last_read_message_id = some id; last_read_at = some now })
                w.memberships;
        },
        msg,
      )

  enqueue : World b → Host → Bool → MessageDeliveryJob → ℕ → World b × List MessageDeliveryJob
  enqueue w host true job now = (w, job ∷ [])
  enqueue w host false job now =
      (record w { client = run_message_delivery b.redis host.stringify job w.client now }, [])

  deliver :
      World b
      → Host
      → Bool
      → MessagePayload
      → List String
      → Option (List String)
      → ℕ
      → World b × List MessageDeliveryJob
  deliver w host accepts payload [] connected now = (w, [])
  deliver w host accepts payload (u ∷ us) connected now =
      enqueue w host accepts
        (record {
          message = payload;
          recipient_ids = u ∷ us;
          offline_user_ids = keep (is_offline connected) (u ∷ us);
        })
        now

  -- The jobs that the queue was given come second.
  dispatch_new_message :
      World b
      → Host
      → Answers
      → MessagePayload
      → Option String
      → ℕ
      → World b × List MessageDeliveryJob
  dispatch_new_message w host answers payload except_socket_id now =
      let found =
        get_members b.redis w.client (b.memberships.rows w.memberships) payload.channel_id now in
      let socket =
        emit_to_channel w.socket payload.channel_id "message:new" (payload_fields payload)
          (record { except_socket_id = except_socket_id; except_user_id = none }) in
      let client = cache_message b.redis found.0 payload.channel_id (host.stringify payload) now in
      deliver (record w { socket = socket; client = client }) host answers.queue_accepts payload
        (keep (λ id. not (id == payload.sender_id)) found.1) answers.connected now

  pub record Sent : Type 0 where
    pub world : World b
    pub jobs : List MessageDeliveryJob
    pub result : Result MessagePayload

  refused : World b → Thrown → Sent
  refused w e = record { world = w; jobs = []; result = thrown e }

  -- The signature binds the channel and the ciphertext; an empty one is not checked.
  is_signed : Host → SendMessageInput → User → Bool
  unfolding or_empty
  is_signed host input user =
      or_empty input.signature == ""
      || user.public_key_sign == ""
      || host.verify (input.channel_id ++ (":" ++ input.encrypted_content))
          (or_empty input.signature) user.public_key_sign

  dispatched : MessagePayload → World b × List MessageDeliveryJob → Sent
  dispatched payload (w, jobs) = record { world = w; jobs = jobs; result = ok payload }

  store_and_send :
      Host
      → Answers
      → SendMessageInput
      → Option String
      → String
      → String
      → ℕ
      → World b × Message
      → Sent
  unfolding dispatched
  store_and_send host answers input except_socket_id username id now (w, msg) =
      let payload = to_message_payload msg (some username) in
      dispatched payload (dispatch_new_message w host answers payload except_socket_id now)

  send_as :
      World b
      → Host
      → Answers
      → SendMessageInput
      → Option String
      → String
      → ℕ
      → Option (User × Channel)
      → Sent
  unfolding refused
  send_as w host answers input except_socket_id id now none =
      refused w (forbidden "Not a member of this channel")
  send_as w host answers input except_socket_id id now (some (user, channel)) =
      if channel.is_archived
      then refused w (bad_request "Channel is archived")
      else if not (is_signed host input user)
      then refused w (bad_request "Invalid message signature")
      else store_and_send host answers input except_socket_id user.username id now
          (insert_with_sequence w input id now)

  both : Option User → Option Channel → Option (User × Channel)
  both (some user) (some channel) = some (user, channel)
  both _ _ = none

  -- The join of the membership with its user and its channel.
  member_row : World b → String → String → Option (User × Channel)
  unfolding both
  member_row w user_id channel_id =
      if any (λ m. m.user_id == user_id && m.channel_id == channel_id)
        (b.memberships.rows w.memberships)
      then both (select_one b.users (λ u. u.id == user_id) w.users)
          (select_one b.channels (λ c. c.id == channel_id) w.channels)
      else none

  send_if :
      World b
      → Host
      → Answers
      → SendMessageInput
      → Option String
      → String
      → ℕ
      → Option Thrown
      → Sent
  unfolding refused
  send_if w host answers input except_socket_id id now (some e) = refused w e
  send_if w host answers input except_socket_id id now none =
      send_as w host answers input except_socket_id id now
        (member_row w input.user_id input.channel_id)

  -- `id` is the generated id of the message.
  pub send : World b → Host → Answers → SendMessageInput → Option String → String → ℕ → Sent
  send w host answers input except_socket_id id now =
      send_if w host answers input except_socket_id id now (assert_send_limits input)
