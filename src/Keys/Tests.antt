-- ===== src/Keys/Tests.antt =====
-- Rotations and uploads in a group of two.
use zevra_server.Prelude.{
  ℕ, ◌≡◌, refl, String, true, false, not, List, [], ◌∷◌, ◌++◌, none, some, arith, keep, any, find,
  map, update_where,
}
use zevra_server.Js.{distinct_from, null}
use zevra_server.Schema.{User, Membership, SenderKey}
use zevra_server.Store.{World}
use zevra_server.Store.Pointwise.{Pointwise}
use zevra_server.Store.Concrete.{list_backend, empty_world}
use zevra_server.Errors.Thrown.{Thrown, ok, thrown, forbidden}
use zevra_server.Keys.{
  RotateKeysParams, rotate_keys, rotated, refusal, SenderKeyItem, upload_sender_keys, stored_or,
  store_keys, refuse_upload, is_own_key, new_sender_key, active_members, has_left,
}
use zevra_server.Keys.Rotation.{Climbs, rotate_keys-Climbs}
use zevra_server.Keys.Runs.{Reaches, here, next, rotation, registration, rotate_keys-once}
use zevra_server.Keys.Upload.{IsAllowed, upload_sender_keys-Replaces, upload_sender_keys-refused}

abbrev user_of : String → ℕ → User
user_of id version = record {
  id = id;
  username = id;
  email = id;
  srp_salt = "s";
  srp_verifier = "v";
  argon2_params = null;
  public_key = "p";
  encrypted_private_key = "e";
  key_salt = "k";
  public_key_sign = "p";
  encrypted_private_key_sign = "e";
  key_salt_sign = "k";
  key_version = version;
  status = "OFFLINE";
  is_active = true;
  created_at = 1;
  updated_at = 1;
  last_login_at = none;
}

abbrev member_of : String → Membership
member_of id = record {
  id = id;
  role = "MEMBER";
  joined_at = 1;
  left_at = none;
  muted = false;
  last_read_message_id = none;
  last_read_at = none;
  user_id = id;
  channel_id = "g";
}

abbrev old_key : SenderKey
old_key = record {
  id = "k0";
  group_id = "g";
  epoch = 2;
  encrypted_key = "old";
  key_signature = "s";
  created_at = 1;
  owner_id = "ann";
  receiver_id = "bob";
}

abbrev group : World list_backend
group = record empty_world {
  users = user_of "ann" 3 ∷ user_of "bob" 1 ∷ [];
  memberships = member_of "ann" ∷ member_of "bob" ∷ [];
  sender_keys = old_key ∷ [];
}

abbrev keys_at : ℕ → RotateKeysParams
keys_at version = record {
  new_public_key = "np";
  new_encrypted_private_key = "ne";
  new_key_salt = "nk";
  new_public_key_sign = "nps";
  new_encrypted_private_key_sign = "nes";
  new_key_salt_sign = "nks";
  new_key_version = version;
}

abbrev for_bob : List SenderKeyItem
for_bob = record { receiver_id = "bob"; encrypted_key = "new"; key_signature = "t" } ∷ []

abbrev named : String → String
named id = id

rotate_keys-Climbs_example :
    Pointwise
      (Climbs "ann" 4)
      group.users
      (rotate_keys list_backend group "ann" (keys_at 4) "a1" 9 true).0.users
rotate_keys-Climbs_example = rotate_keys-Climbs list_backend group "ann" (keys_at 4) "a1" 9 true

rotate_keys-stale :
    (rotate_keys list_backend group "ann" (keys_at 3) "a1" 9 true).1
    ≡ thrown (refusal list_backend (some (user_of "ann" 3)))
unfolding rotate_keys rotated find update_where
rotate_keys-stale = refl

abbrev rotated_once : World list_backend
rotated_once = (rotate_keys list_backend group "ann" (keys_at 4) "a1" 9 true).0

-- Bob rotates, eve registers, and ann rotates again.
abbrev with_bob : World list_backend
with_bob = (rotate_keys list_backend rotated_once "bob" (keys_at 2) "a2" 10 true).0

abbrev with_eve : World list_backend
with_eve = record with_bob { users = with_bob.users ++ user_of "eve" 1 ∷ [] }

abbrev rotated_twice : World list_backend
rotated_twice = (rotate_keys list_backend with_eve "ann" (keys_at 7) "a3" 11 true).0

later_calls : Reaches list_backend "ann" rotated_once rotated_twice
later_calls =
    next
      (next (next here (rotation "bob" (keys_at 2) "a2" 10 true refl))
        (registration (user_of "eve" 1) refl refl))
      (rotation "ann" (keys_at 7) "a3" 11 true refl)

rotate_keys-once_example :
    (e : Thrown) × ((rotate_keys list_backend rotated_twice "ann" (keys_at 4) "a4" 12 true).1
      ≡ thrown e)
rotate_keys-once_example =
    rotate_keys-once list_backend "ann" group rotated_twice (keys_at 4) (keys_at 4) "a1" "a4" 9 12
      true true (omega arith) later_calls

upload-accepted : (upload_sender_keys list_backend group "ann" "g" 2 for_bob named 5).1 ≡ ok tt
unfolding upload_sender_keys stored_or store_keys refuse_upload active_members has_left
    distinct_from keep any
upload-accepted = refl

upload_sender_keys-Replaces_example :
    let w = (upload_sender_keys list_backend group "ann" "g" 2 for_bob named 5).0 in
    IsAllowed list_backend group "ann" "g" for_bob
    × (keep (is_own_key "ann" "g" 2) w.sender_keys
        ≡ map (new_sender_key "ann" "g" 2 named 5) for_bob)
    × (keep (λ k. not (is_own_key "ann" "g" 2 k)) w.sender_keys
        ≡ keep (λ k. not (is_own_key "ann" "g" 2 k)) (old_key ∷ []))
upload_sender_keys-Replaces_example =
    upload_sender_keys-Replaces list_backend group "ann" "g" 2 for_bob named 5 upload-accepted

upload-outsider :
    (upload_sender_keys list_backend group "eve" "g" 2 for_bob named 5).1
    ≡ thrown (forbidden "Not a member of this group")
unfolding upload_sender_keys stored_or store_keys refuse_upload active_members has_left
    distinct_from keep any
upload-outsider = refl

upload_sender_keys-refused_example :
    (upload_sender_keys list_backend group "eve" "g" 2 for_bob named 5).0 ≡ group
upload_sender_keys-refused_example =
    upload_sender_keys-refused list_backend group "eve" "g" 2 for_bob named 5
      (forbidden "Not a member of this group") upload-outsider
