-- ===== src/Channels/Members/Tests.antt =====
-- A group whose admin adds a member and leaves, channels.service.ts.
use zevra_server.Prelude.{◌≡◌, refl, true, false, [], ◌∷◌, none, some, arith, keep, any, find}
use zevra_server.Js.{null}
use zevra_server.Schema.{User, Channel}
use zevra_server.Store.{World}
use zevra_server.Store.Concrete.{list_backend, empty_world}
use zevra_server.Errors.Thrown.{ok}
use zevra_server.Channels.{new_membership, get_role}
use zevra_server.Channels.Members.{
  add_member, join_channel, join_user, join, remove_member, remove_found, settle, finish_remove,
  promote_oldest, earliest, earlier, or_member,
}
use zevra_server.Channels.Members.Roster.{IsRoster, remove_member-IsRoster}
use zevra_server.Channels.Members.Joining.{add_member-IsRoster}

abbrev bob : User
bob = record {
  id = "bob";
  username = "bob";
  email = "b";
  srp_salt = "s";
  srp_verifier = "v";
  argon2_params = null;
  public_key = "p";
  encrypted_private_key = "e";
  key_salt = "k";
  public_key_sign = "p";
  encrypted_private_key_sign = "e";
  key_salt_sign = "k";
  key_version = 1;
  status = "OFFLINE";
  is_active = true;
  created_at = 1;
  updated_at = 1;
  last_login_at = none;
}

abbrev team : Channel
team = record {
  id = "c";
  name = none;
  type = "GROUP";
  is_archived = false;
  last_message_id = none;
  last_message_at = none;
  created_at = 1;
  updated_at = 1;
}

abbrev founded : World list_backend
founded = record empty_world {
  users = bob ∷ [];
  channels = team ∷ [];
  memberships = new_membership "m1" "ADMIN" "ann" "c" 1 ∷ [];
}

abbrev joined : World list_backend
joined = (add_member list_backend founded "c" "ann" "bob" none "m2" 2).0

-- After the admin has left, the other is promoted.
left_alone : (remove_member list_backend joined "c" "ann" "ann" 3).1 ≡ ok (some "bob")
unfolding remove_member remove_found settle finish_remove promote_oldest earliest earlier add_member
    join_channel join_user join or_member get_role keep any find
left_alone = refl

founded-IsRoster : IsRoster founded.memberships
unfolding keep any
founded-IsRoster = (λ c u. ground arith, λ c h. ground arith, λ c. ground arith)

add_member-IsRoster_example :
    IsRoster (add_member list_backend founded "c" "ann" "bob" none "m2" 2).0.memberships
add_member-IsRoster_example =
    add_member-IsRoster list_backend founded "c" "ann" "bob" none "m2" 2 founded-IsRoster

joined-IsRoster : IsRoster joined.memberships
joined-IsRoster =
    add_member-IsRoster list_backend founded "c" "ann" "bob" none "m2" 2 founded-IsRoster

remove_member-IsRoster_example :
    IsRoster (remove_member list_backend joined "c" "ann" "ann" 3).0.memberships
remove_member-IsRoster_example =
    remove_member-IsRoster list_backend joined "c" "ann" "ann" 3 joined-IsRoster
