-- ===== src/Reactions/Tests.antt =====
-- Runs of reactions.service.ts on a small channel.
use zevra_server.Prelude.{
  String, ◌≡◌, refl, false, [], ◌∷◌, none, arith, keep, not, ◌&&◌, any, find,
}
use zevra_server.Js.{null}
use zevra_server.Schema.{Reaction, Message, Membership}
use zevra_server.Store.{World}
use zevra_server.Store.Concrete.{list_backend, empty_world}
use zevra_server.Errors.Thrown.{ok, thrown}
use zevra_server.Reactions.Groups.{group_rows, is_inherited, type_error}
use zevra_server.Reactions.Grouping.{IsAnswer, get_reactions-IsGrouping}
use zevra_server.Reactions.{
  get_reactions, grouped, values_of, ReactionActor, add_reaction, remove_reaction, add_to,
  check_target, finish_add, replace, remove_from, load_target, added, removed, is_mine, has_emoji,
}
use zevra_server.Reactions.Unique.{
  OnePerUser, add_reaction-OnePerUser, add_reaction-Sets, remove_reaction-Removes,
}

abbrev hello : Message
hello = record {
  id = "m1";
  message_type = "TEXT";
  encrypted_content = "x";
  content_iv = "iv";
  content_tag = "t";
  signature = "s";
  sequence_number = 1;
  sender_key_epoch = 1;
  metadata = null;
  is_deleted = false;
  created_at = 5;
  updated_at = 5;
  sender_id = "u2";
  channel_id = "c1";
}

abbrev ann : ReactionActor
ann = record { id = "u1"; username = "ann" }

abbrev member : Membership
member = record {
  id = "k1";
  role = "MEMBER";
  joined_at = 1;
  left_at = none;
  muted = false;
  last_read_message_id = none;
  last_read_at = none;
  user_id = "u1";
  channel_id = "c1";
}

abbrev smile : Reaction
smile = record { id = "r1"; emoji = "smile"; created_at = 6; message_id = "m1"; user_id = "u1" }

abbrev reacted : World list_backend
reacted = record empty_world {
  messages = hello ∷ [];
  memberships = member ∷ [];
  reactions = smile ∷ [];
}

reacted-OnePerUser : OnePerUser (smile ∷ [])
unfolding keep
reacted-OnePerUser m u = ground arith

add_reaction-reacted :
    (add_reaction list_backend reacted ann "c1" "m1" "heart" "r2" 7).1
    ≡ ok (record { action = added; replaced = "smile" ∷ [] })
unfolding add_reaction add_to load_target check_target finish_add replace keep any find
add_reaction-reacted = refl

remove_reaction-reacted :
    (remove_reaction list_backend reacted ann "c1" "m1" "smile").1 ≡ ok removed
unfolding remove_reaction remove_from load_target check_target keep any find
remove_reaction-reacted = refl

add_reaction-OnePerUser_example :
    OnePerUser (add_reaction list_backend reacted ann "c1" "m1" "heart" "r2" 7).0.reactions
add_reaction-OnePerUser_example =
    add_reaction-OnePerUser list_backend reacted ann "c1" "m1" "heart" "r2" 7 reacted-OnePerUser

add_reaction-Sets_example :
    let k = (add_reaction list_backend reacted ann "c1" "m1" "heart" "r2" 7).0.reactions in
    ((row : Reaction) × (keep (is_mine "m1" "u1") k ≡ row ∷ []) × (row.emoji ≡ "heart"))
    × (keep (λ r. not (is_mine "m1" "u1" r)) k ≡ keep (λ r. not (is_mine "m1" "u1" r)) (smile ∷ []))
add_reaction-Sets_example =
    add_reaction-Sets list_backend reacted ann "c1" "m1" "heart" "r2" 7 reacted-OnePerUser
      (record { action = added; replaced = "smile" ∷ [] }) add_reaction-reacted

remove_reaction-Removes_example :
    (remove_reaction list_backend reacted ann "c1" "m1" "smile").0.reactions
    ≡ keep (λ x. not (is_mine "m1" "u1" x && has_emoji "smile" x)) (smile ∷ [])
remove_reaction-Removes_example =
    remove_reaction-Removes list_backend reacted ann "c1" "m1" "smile" removed
      remove_reaction-reacted

-- A name of `Object.prototype` among the emojis.
abbrev with_emoji : String → String → Reaction
with_emoji emoji user_id = record smile { emoji = emoji; user_id = user_id }

abbrev mixed : World list_backend
mixed = record reacted {
  reactions = smile ∷ with_emoji "7" "u2" ∷ with_emoji "smile" "u3" ∷ with_emoji "3" "u4" ∷ [];
}

abbrev hostile : World list_backend
hostile = record reacted { reactions = smile ∷ with_emoji "constructor" "u2" ∷ [] }

get_reactions-hostile : get_reactions list_backend hostile "m1" "u1" "c1" ≡ thrown type_error
unfolding get_reactions grouped values_of group_rows is_inherited load_target check_target keep any
    find
get_reactions-hostile = refl

mixed_target : load_target list_backend mixed "u1" "c1" "m1" ≡ ok hello
unfolding load_target check_target any find
mixed_target = refl

get_reactions-IsGrouping_example :
    IsAnswer list_backend mixed "m1" (get_reactions list_backend mixed "m1" "u1" "c1")
get_reactions-IsGrouping_example =
    get_reactions-IsGrouping list_backend mixed "m1" "u1" "c1" hello mixed_target
