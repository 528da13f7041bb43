-- ===== src/Messages.antt =====
-- src/modules/messages: the payload of a message (message-payload.ts), and delivery to members that
-- are offline (src/shared/queues/message-delivery.job.ts).
pub mod Size
pub mod Limits
pub mod Sending
pub mod Deletion
mod Tests
use zevra_server.Prelude.{ℕ, String, Bool, List, [], ◌∷◌, Option, length, if◌then◌else◌}
use zevra_server.Js.{JsValue, undefined, null, boolean, number, string, string_or_null}
use zevra_server.Schema.{Message}
use zevra_server.Redis.{Redis}
use zevra_server.Redis.Session.{Client, add_pending_message}
use zevra_server.Redis.Cache.{increment_unread_many}

-- Times are milliseconds where the source has an ISO text.
pub record MessagePayload : Type 0 where
  pub id : String
  pub message_id : String
  pub channel_id : String
  pub sender_id : String
  pub sender_username : Option String
  pub encrypted_content : String
  pub content_iv : String
  pub content_tag : String
  pub signature : String
  pub sequence_number : ℕ
  pub sender_key_epoch : ℕ
  pub message_type : String
  pub metadata : JsValue
  pub is_deleted : Bool
  pub created_at : ℕ

-- `value ?? null`
abbrev pub or_null : JsValue → JsValue
or_null undefined = null
or_null v = v

pub to_message_payload : Message → Option String → MessagePayload
to_message_payload row sender_username = record {
  id = row.id;
  message_id = row.id;
  channel_id = row.channel_id;
  sender_id = row.sender_id;
  sender_username = sender_username;
  encrypted_content = if row.is_deleted then "" else row.encrypted_content;
  content_iv = row.content_iv;
  content_tag = row.content_tag;
  signature = row.signature;
  sequence_number = row.sequence_number;
  sender_key_epoch = row.sender_key_epoch;
  message_type = row.message_type;
  metadata = if row.is_deleted then null else or_null row.metadata;
  is_deleted = row.is_deleted;
  created_at = row.created_at;
}

pub payload_fields : MessagePayload → List (String × JsValue)
payload_fields p =
    ("id", string p.id)
    ∷ ("messageId", string p.message_id)
    ∷ ("channelId", string p.channel_id)
    ∷ ("senderId", string p.sender_id)
    ∷ ("senderUsername", string_or_null p.sender_username)
    ∷ ("encryptedContent", string p.encrypted_content)
    ∷ ("contentIv", string p.content_iv)
    ∷ ("contentTag", string p.content_tag)
    ∷ ("signature", string p.signature)
    ∷ ("sequenceNumber", number p.sequence_number)
    ∷ ("senderKeyEpoch", number p.sender_key_epoch)
    ∷ ("messageType", string p.message_type)
    ∷ ("metadata", p.metadata)
    ∷ ("isDeleted", boolean p.is_deleted)
    ∷ ("createdAt", number p.created_at)
    ∷ []

pub record MessageDeliveryJob : Type 0 where
  pub message : MessagePayload
  pub recipient_ids : List String
  pub offline_user_ids : List String

-- `stringify` is `JSON.stringify` on a payload.
pub run_message_delivery :
    (r : Redis) → (MessagePayload → String) → MessageDeliveryJob → Client r → ℕ → Client r
run_message_delivery r stringify job c now =
    increment_unread_many r
      (add_pending_message r c job.offline_user_ids job.message.created_at (stringify job.message)
        now)
      job.recipient_ids job.message.channel_id now
