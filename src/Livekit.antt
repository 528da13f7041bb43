-- ===== src/Livekit.antt =====
-- src/modules/livekit/livekit.service.ts: rooms of LiveKit, their names and who may join them. The
-- library's tokens and its server are parameters.
pub mod Rooms
pub mod Webhook
mod Tests
use Prim.Native.Nat.{Ordering}
use Prim.Native.String.{compare, ◌++◌}
use zevra_server.Prelude.{
  ℕ, zero, suc, String, Bool, true, false, not, ◌&&◌, ◌||◌, List, [], ◌∷◌, Option, none, some, any,
  eqb, ◌==◌, if◌then◌else◌,
}
use zevra_server.Js.{JsValue, codes}
use zevra_server.Redis.Values.{take}
use zevra_server.Schema.{Membership}
use zevra_server.Store.{Backend, World}
use zevra_server.Uuid.{after_char, after_uuid, is_end, lower, same_codes, same_uuid, ◌>>=◌}

-- The credentials and the LiveKit library: `AccessToken` signs a grant for a room, and
-- `listParticipants` tells how many there are (an error tells none).
pub record LiveKit : Type 0 where
  pub is_configured : Bool
  pub url : JsValue
  pub sign : String → String → JsValue → String
  pub participants : String → ℕ

unfoldable pub generate_token : LiveKit → String → String → JsValue → Option String
generate_token l room_name user_id username =
    if l.is_configured then some (l.sign room_name user_id username) else none

unfoldable pub get_participants : LiveKit → String → ℕ
get_participants l room_name = if l.is_configured then l.participants room_name else 0

-- `[userId1, userId2].sort()`
is_after : String → String → Bool
is_after a b = elim (compare a b) [ Ordering.gt ↦ true | _ ↦ false ]

unfoldable pub get_dm_room_name : String → String → String
unfolding is_after
get_dm_room_name a b =
    if is_after a b then "dm-" ++ (b ++ ("-" ++ a)) else "dm-" ++ (a ++ ("-" ++ b))

unfoldable pub get_group_room_name : String → String
get_group_room_name channel_id = "group-" ++ channel_id

-- A word in either case at the start: what the text goes on with.
unfoldable pub after_word : List ℕ → List ℕ → Option (List ℕ)
after_word [] cs = some cs
after_word (p ∷ ps) [] = none
after_word (p ∷ ps) (c ∷ cs) = let rest = after_word ps cs in if eqb (lower c) p then rest else none

-- The second user's id and the end of the name, after the first user's.
second_user : List ℕ → List ℕ → Option (List ℕ × List ℕ)
unfolding is_end
second_user first rest =
    if is_end (after_uuid rest) then some (take 36 first, take 36 rest) else none

-- `DM_ROOM_RE.exec`, as the two users.
dm_users : List ℕ → Option (List ℕ × List ℕ)
unfolding second_user after_word after_char
dm_users room = elim (after_word (codes "dm-") room) [
  | none ↦ none
  | some cs ↦ elim (after_uuid cs >>= after_char b'-') [ none ↦ none | some r ↦ second_user cs r ]
]

-- `GROUP_ROOM_RE.exec`, as the channel.
group_channel : List ℕ → Option (List ℕ)
unfolding after_word is_end
group_channel room = elim (after_word (codes "group-") room) [
  | none ↦ none
  | some cs ↦ if is_end (after_uuid cs) then some (take 36 cs) else none
]

-- The active membership of the query. Both ids are of the type uuid.
abbrev pub is_active_member : List ℕ → String → Membership → Bool
is_active_member channel user_id m =
    same_uuid m.user_id user_id && same_codes (codes m.channel_id) channel && is_absent m.left_at
  where
    is_absent : Option ℕ → Bool
    is_absent none = true
    is_absent (some t) = false

module _ (b : Backend) where
  group_access : World b → String → Option (List ℕ) → Bool
  group_access w user_id none = false
  group_access w user_id (some channel) =
      any (is_active_member channel user_id) (b.memberships.rows w.memberships)

  access : World b → String → Option (List ℕ × List ℕ) → Option (List ℕ) → Bool
  unfolding group_access
  access w user_id (some (x, y)) group =
      same_codes x (codes user_id) || same_codes y (codes user_id)
  access w user_id none group = group_access w user_id group

  unfoldable pub authorize_room_access : World b → String → String → Bool
  unfolding access dm_users group_channel
  authorize_room_access w room_name user_id =
      access w user_id (dm_users (codes room_name)) (group_channel (codes room_name))
