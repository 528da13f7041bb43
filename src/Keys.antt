-- ===== src/Keys.antt =====
-- src/modules/keys/keys.service.ts: key rotation and the sender keys of groups.
pub mod Rotation
pub mod Runs
pub mod Upload
mod Tests
use zevra_server.Prelude.{
  ℕ, ◌+◌, String, Bool, true, false, not, ◌&&◌, ◌||◌, List, [], ◌∷◌, ◌++◌, Option, none, some, ◌==◌,
  any, keep, map, length, if◌then◌else◌, ltb, leb, eqb,
}
use zevra_server.Js.{distinct_from, includes, JsValue, object, field, end, number, string}
use zevra_server.Schema.{User, Membership, SenderKey, AuditLog}
use zevra_server.Store.{Table, Backend, World, select, select_one}
use zevra_server.Errors.Thrown.{
  Thrown, Result, ok, thrown, not_found, forbidden, bad_request, other,
}

pub record RotateKeysParams : Type 0 where
  pub new_public_key : String
  pub new_encrypted_private_key : String
  pub new_key_salt : String
  pub new_public_key_sign : String
  pub new_encrypted_private_key_sign : String
  pub new_key_salt_sign : String
  pub new_key_version : ℕ

pub record SenderKeyItem : Type 0 where
  pub receiver_id : String
  pub encrypted_key : String
  pub key_signature : String

pub record PublicKeys : Type 0 where
  pub public_key : String
  pub public_key_sign : String
  pub key_version : ℕ

-- The rows that `rotateKeys` may change.
abbrev pub is_due : String → ℕ → User → Bool
is_due user_id version u = u.id == user_id && ltb u.key_version version

abbrev pub with_keys : RotateKeysParams → ℕ → User → User
with_keys params now u = record u {
  public_key = params.new_public_key;
  encrypted_private_key = params.new_encrypted_private_key;
  key_salt = params.new_key_salt;
  public_key_sign = params.new_public_key_sign;
  encrypted_private_key_sign = params.new_encrypted_private_key_sign;
  key_salt_sign = params.new_key_salt_sign;
  key_version = params.new_key_version;
  updated_at = now;
}

abbrev pub new_sender_key : String → String → ℕ → (String → String) → ℕ → SenderKeyItem → SenderKey
new_sender_key owner_id group_id epoch new_id now item = record {
  id = new_id item.receiver_id;
  group_id = group_id;
  epoch = epoch;
  encrypted_key = item.encrypted_key;
  key_signature = item.key_signature;
  created_at = now;
  owner_id = owner_id;
  receiver_id = item.receiver_id;
}

pub is_own_key : String → String → ℕ → SenderKey → Bool
is_own_key owner_id group_id epoch k =
    k.group_id == group_id && (eqb k.epoch epoch && k.owner_id == owner_id)

has_left : Option ℕ → Bool
has_left none = false
has_left (some t) = true

-- The guards of `uploadSenderKeys`: whether a receiver is repeated, the owner is a member, and some
-- receiver is none.
refuse_upload : Bool → Bool → Bool → Option Thrown
refuse_upload true member outside = some (bad_request "Duplicate receiverId in items")
refuse_upload false false outside = some (forbidden "Not a member of this group")
refuse_upload false true true = some (bad_request "All receivers must be members of this group")
refuse_upload false true false = none

module _ (b : Backend) where
  -- The entries of the object that is returned, by id.
  pub get_public_keys : World b → List String → List (String × PublicKeys)
  get_public_keys w user_ids =
      map
        (λ u. (
          u.id,
          record {
            public_key = u.public_key;
            public_key_sign = u.public_key_sign;
            key_version = u.key_version;
          },
        ))
        (select b.users (λ u. includes user_ids u.id) w.users)

  found_user : Option User → Result User
  found_user none = thrown (not_found "User not found")
  found_user (some u) = ok u

  pub get_my_keys : World b → String → Result User
  get_my_keys w user_id = found_user (select_one b.users (λ u. u.id == user_id) w.users)

  -- The answer when the UPDATE has changed no row.
  pub refusal : Option User → Thrown
  refusal none = not_found "User not found"
  refusal (some current) = bad_request "newKeyVersion must be greater than the current key version"

  audit_rotation : Bool → String → String → ℕ → ℕ → b.audit_log.State → b.audit_log.State
  audit_rotation false id user_id version now log = log
  audit_rotation true id user_id version now log =
      b.audit_log.insert
        (record {
          id = id;
          action = "KEY_ROTATE";
          details = object (field "newKeyVersion" (number version) end);
          ip_address = none;
          user_id = some user_id;
          created_at = now;
        })
        log

  -- What follows the UPDATE, which returned the row that it changed.
  rotated : World b → String → ℕ → String → ℕ → Bool → Option User → World b × Result ℕ
  rotated w user_id version audit_id now logs none =
      (w, thrown (refusal (select_one b.users (λ u. u.id == user_id) w.users)))
  rotated w user_id version audit_id now logs (some u) = (
    record w { audit_log = audit_rotation logs audit_id user_id version now w.audit_log },
    ok version,
  )

  -- `logs` tells whether the insertion into the audit log succeeds; its failure is only logged.
  pub rotate_keys : World b → String → RotateKeysParams → String → ℕ → Bool → World b × Result ℕ
  rotate_keys w user_id params audit_id now logs =
      let due = is_due user_id params.new_key_version in
      rotated (record w { users = b.users.update due (with_keys params now) w.users }) user_id
        params.new_key_version audit_id now logs (select_one b.users due w.users)

  insert_all : List SenderKey → b.sender_keys.State → b.sender_keys.State
  insert_all [] t = t
  insert_all (r ∷ rs) t = insert_all rs (b.sender_keys.insert r t)

  -- The transaction; the insertion of no rows is refused by the query builder, and rolls back.
  store_keys : World b → (SenderKey → Bool) → List SenderKey → World b × Result (Unit {0})
  store_keys w old [] = (
    w,
    thrown (
        other (
          object (field "message" (string "values() must be called with at least one value") end))),
  )
  store_keys w old (r ∷ rs) = (
    record w { sender_keys = insert_all (r ∷ rs) (b.sender_keys.delete old w.sender_keys) },
    ok tt,
  )

  pub active_members : World b → String → List String → List String
  unfolding has_left
  active_members w group_id ids =
      map (λ m. m.user_id)
        (select b.memberships
          (λ m. m.channel_id == group_id && (includes ids m.user_id && not (has_left m.left_at)))
          w.memberships)

  stored_or :
      World b → (SenderKey → Bool) → List SenderKey → Option Thrown → World b × Result (Unit {0})
  stored_or w old values (some e) = (w, thrown e)
  stored_or w old values none = store_keys w old values

  -- `new_id` is the id that Postgres generates for the row of a receiver.
  pub upload_sender_keys :
      World b
      → String
      → String
      → ℕ
      → List SenderKeyItem
      → (String → String)
      → ℕ
      → World b × Result (Unit {0})
  upload_sender_keys w owner_id group_id epoch items new_id now =
      let receiver_ids = distinct_from [] (map (λ i. i.receiver_id) items) in
      let members = active_members w group_id (owner_id ∷ receiver_ids) in
      let outsiders = keep (λ id. not (includes members id)) receiver_ids in
      stored_or w (is_own_key owner_id group_id epoch)
        (map (new_sender_key owner_id group_id epoch new_id now) items)
        (refuse_upload (not (eqb (length receiver_ids) (length items))) (includes members owner_id)
          (ltb 0 (length outsiders)))

-- `ORDER BY epoch`
pub by_epoch : SenderKey → List SenderKey → List SenderKey
by_epoch k [] = k ∷ []
by_epoch k (x ∷ xs) =
    let rest = by_epoch k xs in if leb k.epoch x.epoch then k ∷ x ∷ xs else x ∷ rest

pub ordered : List SenderKey → List SenderKey
unfolding by_epoch
ordered [] = []
ordered (k ∷ ks) = by_epoch k (ordered ks)

has_epoch : Option ℕ → SenderKey → Bool
has_epoch none k = true
has_epoch (some epoch) k = eqb k.epoch epoch

module _ (b : Backend) where
  pub get_sender_keys : World b → String → String → Option ℕ → List SenderKey
  unfolding has_epoch
  get_sender_keys w group_id receiver_id epoch = ordered (
      select b.sender_keys
        (λ k. k.group_id == group_id && (k.receiver_id == receiver_id && has_epoch epoch k))
        w.sender_keys)
