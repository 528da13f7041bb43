-- ===== src/Messages/Limits.antt =====
-- src/modules/messages/messages.service.ts: what is refused before a message is sent.
use zevra_server.Prelude.{
  ℕ, ◌*◌, String, Bool, true, not, ◌&&◌, ◌||◌, Option, none, some, ◌==◌, if◌then◌else◌, ltb,
}
use zevra_server.Js.{JsValue, undefined, null, object}
use zevra_server.Errors.Thrown.{Thrown, bad_request, payload_too_large}
use zevra_server.Messages.Size.{byte_length, utf16_length, json_size}

pub record SendMessageInput : Type 0 where
  pub user_id : String
  pub channel_id : String
  pub encrypted_content : String
  pub content_iv : String
  pub content_tag : String
  pub signature : Option String
  pub sender_key_epoch : ℕ
  pub message_type : Option String
  pub metadata : JsValue

abbrev max_encrypted_content_bytes : ℕ
max_encrypted_content_bytes = 10 * 1024

abbrev max_metadata_bytes : ℕ
max_metadata_bytes = 64 * 1024

is_message_type : Option String → Bool
is_message_type none = true
is_message_type (some t) = t == "TEXT" || t == "IMAGE" || t == "FILE" || t == "SYSTEM"

-- 1-32 UTF-16 units
is_short : String → Bool
is_short s = ltb 0 (utf16_length s) && ltb (utf16_length s) 33

refuse_metadata : JsValue → Option Thrown
refuse_metadata undefined = none
refuse_metadata null = none
refuse_metadata (object fs) =
    if ltb max_metadata_bytes (json_size (object fs))
    then some (payload_too_large "metadata exceeds 64KB limit")
    else none
refuse_metadata _ = some (bad_request "metadata must be an object")

pub assert_send_limits : SendMessageInput → Option Thrown
unfolding is_message_type is_short refuse_metadata
assert_send_limits input =
    if input.encrypted_content == ""
    then some (bad_request "encryptedContent is required")
    else if ltb max_encrypted_content_bytes (byte_length input.encrypted_content)
    then some (payload_too_large "Message exceeds 10KB limit")
    else if not (is_short input.content_iv && is_short input.content_tag)
    then some (bad_request "contentIv and contentTag must be 1-32 characters")
    else if not (is_message_type input.message_type)
    then some (bad_request "Invalid messageType")
    else refuse_metadata input.metadata
