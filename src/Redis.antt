-- ===== src/Redis.antt =====
-- What the server assumes of Redis: its commands as a parameter, with what Redis documents of
-- them as laws. The keys are those of src/redis/redis-keys.ts.
pub mod Values
pub mod Laws
pub mod Session
pub mod Cache
pub mod Members
use zevra_server.Prelude.{
  ℕ, String, Bool, ◌&&◌, Option, none, some, List, [], ◌∷◌, ◌*◌, ◌+◌, ◌≡◌, ◌==◌, if◌then◌else◌,
}
use Values.{Entry, Command, effect, live}

-- `zevra:{domain}:{id}[:{subid}]`. An id holds no colon, so texts differ when the parts do.
pub record RedisKey : Type 0 where
  pub domain : String
  pub id : String
  pub subid : String

abbrev pub same_key : RedisKey → RedisKey → Bool
same_key k j = k.domain == j.domain && (k.id == j.id && k.subid == j.subid)

abbrev pub key : String → String → String → RedisKey
key domain id subid = record { domain = domain; id = id; subid = subid }

abbrev pub sockets_key : String → RedisKey
sockets_key user_id = key "sockets" user_id ""

abbrev pub presence_key : String → RedisKey
presence_key user_id = key "presence" user_id ""

abbrev pub channel_members_key : String → RedisKey
channel_members_key channel_id = key "channel:members" channel_id ""

abbrev pub message_cache_key : String → RedisKey
message_cache_key channel_id = key "cache:messages" channel_id ""

abbrev pub unread_key : String → String → RedisKey
unread_key user_id channel_id = key "unread" user_id channel_id

abbrev pub typing_key : String → RedisKey
typing_key channel_id = key "typing" channel_id ""

abbrev pub pending_key : String → RedisKey
pending_key user_id = key "pending" user_id ""

abbrev pub rate_limit_key : String → String → RedisKey
rate_limit_key scope id = key "ratelimit" scope id

-- `RedisTtl` and `MESSAGE_CACHE_SIZE`.
abbrev pub sockets_seconds : ℕ
sockets_seconds = 120

abbrev pub socket_stale_ms : ℕ
socket_stale_ms = 95000

abbrev pub presence_seconds : ℕ
presence_seconds = 90

abbrev pub channel_members_seconds : ℕ
channel_members_seconds = 3600

abbrev pub message_cache_seconds : ℕ
message_cache_seconds = 86400

abbrev pub unread_seconds : ℕ
unread_seconds = 30 * 86400

abbrev pub typing_seconds : ℕ
typing_seconds = 10

abbrev pub typing_entry_ms : ℕ
typing_entry_ms = 6000

abbrev pub pending_seconds : ℕ
pending_seconds = 7 * 86400

abbrev pub message_cache_size : ℕ
message_cache_size = 50

-- A command changes the entry of its key as its documentation says, and no other entry. The first
-- argument of `run` is the time at which the server runs it, in milliseconds.
pub record Redis : Type 1 where
  pub State : Type 0
  pub entry : State → RedisKey → Option Entry
  pub run : ℕ → RedisKey → Command → State → State
  pub entry_run :
      (now : ℕ) (k : RedisKey) (c : Command) (s : State) (j : RedisKey)
      → entry (run now k c s) j
        ≡ (if same_key k j then effect now c (live now (entry s k)) else entry s j)

-- `getClient()` is null while the connection is down, and a command can fail on one that is up.
pub data Link : Type 0 where
  down failing up : Link
