-- ===== src/Schema.antt =====
-- src/database/schema.ts: the rows of the tables that the services use. Times are milliseconds.
use zevra_server.Prelude.{ℕ, String, Bool, Option}
use zevra_server.Js.{JsValue}

pub record User : Type 0 where
  pub id : String
  pub username : String
  pub email : String
  pub srp_salt : String
  pub srp_verifier : String
  pub argon2_params : JsValue
  pub public_key : String
  pub encrypted_private_key : String
  pub key_salt : String
  pub public_key_sign : String
  pub encrypted_private_key_sign : String
  pub key_salt_sign : String
  pub key_version : ℕ
  pub status : String
  pub is_active : Bool
  pub created_at : ℕ
  pub updated_at : ℕ
  pub last_login_at : Option ℕ

pub record Channel : Type 0 where
  pub id : String
  pub name : Option String
  pub type : String
  pub is_archived : Bool
  pub last_message_id : Option String
  pub last_message_at : Option ℕ
  pub created_at : ℕ
  pub updated_at : ℕ

pub record Membership : Type 0 where
  pub id : String
  pub role : String
  pub joined_at : ℕ
  pub left_at : Option ℕ
  pub muted : Bool
  pub last_read_message_id : Option String
  pub last_read_at : Option ℕ
  pub user_id : String
  pub channel_id : String

pub record Message : Type 0 where
  pub id : String
  pub message_type : String
  pub encrypted_content : String
  pub content_iv : String
  pub content_tag : String
  pub signature : String
  pub sequence_number : ℕ
  pub sender_key_epoch : ℕ
  pub metadata : JsValue
  pub is_deleted : Bool
  pub created_at : ℕ
  pub updated_at : ℕ
  pub sender_id : String
  pub channel_id : String

pub record SenderKey : Type 0 where
  pub id : String
  pub group_id : String
  pub epoch : ℕ
  pub encrypted_key : String
  pub key_signature : String
  pub created_at : ℕ
  pub owner_id : String
  pub receiver_id : String

pub record MessageRead : Type 0 where
  pub id : String
  pub message_id : String
  pub user_id : String
  pub read_at : ℕ

pub record RefreshToken : Type 0 where
  pub id : String
  pub token_hash : String
  pub expires_at : ℕ
  pub created_at : ℕ
  pub user_id : String

pub record AuditLog : Type 0 where
  pub id : String
  pub action : String
  pub details : JsValue
  pub ip_address : Option String
  pub user_id : Option String
  pub created_at : ℕ

pub record Reaction : Type 0 where
  pub id : String
  pub emoji : String
  pub created_at : ℕ
  pub message_id : String
  pub user_id : String

pub record CallLog : Type 0 where
  pub id : String
  pub type : String
  pub caller_id : Option String
  pub callee_id : Option String
  pub room_name : Option String
  pub started_at : ℕ
  pub ended_at : Option ℕ
  pub duration : Option ℕ
  pub status : String
  pub channel_id : Option String

pub record CallParticipant : Type 0 where
  pub id : String
  pub call_log_id : String
  pub user_id : String
  pub username : String
  pub joined_at : ℕ
  pub left_at : Option ℕ
  pub duration : Option ℕ
