-- ===== src/Calls/Inputs.antt =====
-- src/modules/calls/calls.gateway.ts: the payloads and the replies of calls in rooms of LiveKit.
pub mod Targets
use zevra_server.Prelude.{
  ℕ, String, Bool, true, false, not, ◌&&◌, ◌||◌, List, [], ◌∷◌, Option, none, some, ◌==◌, length,
  leb, eqb, if◌then◌else◌,
}
use zevra_server.Js.{
  JsValue, undefined, null, boolean, number, string, array, Items, nil, cons, codes,
}
use zevra_server.Errors.{not_member}
use zevra_server.Errors.SocketAck.{ack}
use zevra_server.Uuid.{uuid_of, is_hex_digit}
use zevra_server.Livekit.{after_word}
use zevra_server.Calls.Logs.{LogInput}
use zevra_server.Calls.Gateway.{Reply, failed, refused}

abbrev pub max_group_targets : ℕ
max_group_targets = 50

items_of : JsValue → Option Items
items_of (array items) = some items
items_of _ = none

with_first : String → Option (List String) → Option (List String)
with_first id none = none
with_first id (some ids) = some (id ∷ ids)

-- The ids, if every item is a UUID.
uuids : Items → Option (List String)
unfolding with_first
uuids nil = some []
uuids (cons v vs) =
    let rest = uuids vs in elim (uuid_of v) [ none ↦ none | some id ↦ with_first id rest ]

capped : ℕ → Option (List String) → Option (List String)
capped n none = none
capped n (some ids) = if leb (length ids) n then some ids else none

-- `isUuidList`, with the ids.
unfoldable pub uuid_list : JsValue → ℕ → Option (List String)
unfolding items_of uuids capped
uuid_list value n = elim (items_of value) [ none ↦ none | some items ↦ capped n (uuids items) ]

-- The check of an optional `channelId`: none when it is refused.
unfoldable pub channel_of : JsValue → Option (Option String)
channel_of undefined = some none
channel_of null = some none
channel_of value = elim (uuid_of value) [ none ↦ none | some id ↦ some (some id) ]

-- `type`, when it is one of the two.
pub data CallKind : Type 0 where
  dm group : CallKind

unfoldable pub kind_of : JsValue → Option CallKind
kind_of (string s) = if s == "DM" then some dm else if s == "GROUP" then some group else none
kind_of _ = none

all_hex_or_dash : List ℕ → Bool
all_hex_or_dash [] = true
all_hex_or_dash (c ∷ cs) = (is_hex_digit c || eqb c b'-') && all_hex_or_dash cs

ends_room : Option (List ℕ) → Bool
unfolding all_hex_or_dash
ends_room none = false
ends_room (some cs) = all_hex_or_dash cs && (leb 36 (length cs) && leb (length cs) 73)

-- `ROOM_NAME_RE`, with the text.
unfoldable pub room_name_of : JsValue → Option String
unfolding ends_room
room_name_of (string s) =
    if ends_room (after_word (codes "dm-") (codes s))
      || ends_room (after_word (codes "group-") (codes s))
    then some s
    else none
room_name_of _ = none

-- `targetUserIds[0]`, unless it is the user.
unfoldable pub target_of : String → List String → Option String
target_of user_id [] = none
target_of user_id (id ∷ ids) = if id == user_id then none else some id

unfoldable pub name_or : String → Option String → String
name_or d none = d
name_or d (some name) = name

abbrev pub no_target : Reply
no_target = failed "NO_TARGET" "A target user is required" []

abbrev pub outsider : String → Reply
outsider message = refused (ack not_member message)

abbrev pub not_available : Reply
not_available = failed "LIVEKIT_NOT_CONFIGURED" "Calls are not available" []

abbrev pub token_value : Option String → JsValue
token_value none = null
token_value (some token) = string token

abbrev pub livekit_log : String → Option String → String → Option String → LogInput
livekit_log user_id callee room_name channel = record {
  type = "LIVEKIT";
  initiator_id = user_id;
  callee_id = callee;
  room_name = some room_name;
  channel_id = channel;
}
