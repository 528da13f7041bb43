-- ===== src/Calls/State.antt =====
-- src/modules/calls/calls.service.ts: the state of calls in Redis, the hash of a call and the text
-- under each of its two users. A pipeline is one step of Redis.
pub mod Entries
pub mod Views
pub mod Mutual
pub mod Writes
pub mod Active
pub mod Users
pub mod Lifetime
use zevra_server.Prelude.{
  ℕ, ◌*◌, String, Bool, true, false, List, [], ◌∷◌, Option, none, some, ◌==◌, if◌then◌else◌,
}
use zevra_server.Js.{object, end}
use zevra_server.Js.Decimal.{decimal, number_of}
use zevra_server.Errors.Thrown.{Thrown, Result, ok, thrown, other}
use zevra_server.Redis.{Redis, RedisKey, Link, down, failing, up, key}
use zevra_server.Redis.Values.{Entry, text, del, expire, set_ex, h_set, live, hash_of}
use zevra_server.Redis.Session.{Client, text_of, multi, when_up}

abbrev pub ringing_ttl_seconds : ℕ
ringing_ttl_seconds = 120

abbrev pub connected_ttl_seconds : ℕ
connected_ttl_seconds = 4 * 60 * 60

abbrev pub room_key : String → RedisKey
room_key call_id = key "call:room" call_id ""

abbrev pub user_call_key : String → RedisKey
user_call_key user_id = key "call:user" user_id ""

pub record ActiveCall : Type 0 where
  pub call_id : String
  pub initiator_id : String
  pub target_id : String
  pub status : String
  -- none is NaN
  pub started_at : Option ℕ
  pub call_log_id : Option String

-- A field of a hash; one that is missing reads as the empty text.
unfoldable pub field_of : String → List (String × String) → String
field_of name [] = ""
field_of name ((k, v) ∷ fs) = let rest = field_of name fs in if k == name then v else rest

abbrev pub text_or_null : String → Option String
text_or_null s = if s == "" then none else some s

abbrev pub to_call : String → List (String × String) → ActiveCall
to_call call_id fields = record {
  call_id = call_id;
  initiator_id = field_of "initiatorId" fields;
  target_id = field_of "targetId" fields;
  status = field_of "status" fields;
  started_at = number_of (field_of "startedAt" fields);
  call_log_id = text_or_null (field_of "callLogId" fields);
}

unfoldable pub to_active_call : String → List (String × String) → Option ActiveCall
to_active_call call_id fields =
    if field_of "initiatorId" fields == "" then none else some (to_call call_id fields)

abbrev pub or_empty : Option String → String
or_empty none = ""
or_empty (some s) = s

-- An error of the Redis client.
abbrev pub redis_error : Thrown
redis_error = other (object end)

-- What the first HSET of a call and that of its acceptance write.
abbrev pub ringing_fields : ActiveCall → ℕ → List (String × String)
ringing_fields call now =
    ("initiatorId", call.initiator_id)
    ∷ ("targetId", call.target_id)
    ∷ ("status", "ringing")
    ∷ ("startedAt", decimal now)
    ∷ ("callLogId", or_empty call.call_log_id)
    ∷ []

abbrev pub connected_fields : ℕ → List (String × String)
connected_fields now = ("status", "connected") ∷ ("startedAt", decimal now) ∷ []

abbrev pub new_call : String → String → Option String → String → ℕ → ActiveCall
new_call initiator_id target_id call_log_id call_id now = record {
  call_id = call_id;
  initiator_id = initiator_id;
  target_id = target_id;
  status = "ringing";
  started_at = some now;
  call_log_id = call_log_id;
}

module _ (r : Redis) where
  unfoldable pub call_of : ℕ → r.State → Option String → Option ActiveCall
  call_of now s none = none
  call_of now s (some call_id) =
      if call_id == ""
      then none
      else to_active_call call_id (hash_of (live now (r.entry s (room_key call_id))))

  -- What the two reads of `getActiveCall` find.
  unfoldable pub active : ℕ → r.State → String → Option ActiveCall
  unfolding call_of
  active now s user_id = call_of now s (text_of (live now (r.entry s (user_call_key user_id))))

  unfoldable pub get_active_call : Client r → String → ℕ → Option ActiveCall
  get_active_call c user_id now = elim c.link [ up ↦ active now c.store user_id | _ ↦ none ]

  unfoldable pub write_call : ActiveCall → ℕ → r.State → r.State
  write_call call now s =
      r.run now (user_call_key call.target_id) (set_ex ringing_ttl_seconds (text call.call_id)) (
        r.run now (user_call_key call.initiator_id) (set_ex ringing_ttl_seconds (text call.call_id))
          (r.run now (room_key call.call_id) (expire ringing_ttl_seconds)
            (r.run now (room_key call.call_id) (h_set (ringing_fields call now)) s)))

  -- While the link is down the call is made without state; a pipeline that fails throws.
  unfoldable pub create_call :
      Client r → String → String → Option String → String → ℕ → Client r × Result ActiveCall
  create_call c initiator_id target_id call_log_id call_id now =
      let call = new_call initiator_id target_id call_log_id call_id now in
      elim c.link [
        | up ↦ (record c { store = write_call call now c.store }, ok call)
        | down ↦ (c, ok call)
        | failing ↦ (c, thrown redis_error)
      ]

  unfoldable pub write_accepted : ActiveCall → ℕ → r.State → r.State
  write_accepted call now s =
      r.run now (user_call_key call.target_id) (expire connected_ttl_seconds) (
        r.run now (user_call_key call.initiator_id) (expire connected_ttl_seconds) (
          r.run now (room_key call.call_id) (expire connected_ttl_seconds)
            (r.run now (room_key call.call_id) (h_set (connected_fields now)) s)))

  unfoldable pub accept_call : Client r → ActiveCall → ℕ → Client r
  accept_call c call now = when_up r c (write_accepted call now)

  -- `if (id) pipeline.del(userCallKey(id))`
  unfoldable pub delete_user_key : String → ℕ → r.State → r.State
  delete_user_key user_id now s =
      if user_id == "" then s else r.run now (user_call_key user_id) del s

  unfoldable pub delete_call : String → List (String × String) → ℕ → r.State → r.State
  unfolding delete_user_key
  delete_call call_id fields now s =
      delete_user_key (field_of "targetId" fields) now
        (delete_user_key (field_of "initiatorId" fields) now (r.run now (room_key call_id) del s))

  unfoldable pub cleanup_call : Client r → String → ℕ → Client r × Option ActiveCall
  unfolding delete_call
  cleanup_call c call_id now =
      let fields = hash_of (live now (r.entry c.store (room_key call_id))) in
      elim c.link [
        | up ↦ (
          record c { store = delete_call call_id fields now c.store },
          to_active_call call_id fields,
        )
        | _ ↦ (c, none)
      ]

  cleanup_found : Client r → ℕ → Option String → Client r × Option ActiveCall
  cleanup_found c now none = (c, none)
  cleanup_found c now (some call_id) =
      if call_id == "" then (c, none) else cleanup_call c call_id now

  -- An error of GET is thrown on.
  unfoldable pub cleanup_user_call : Client r → String → ℕ → Client r × Result (Option ActiveCall)
  unfolding cleanup_found
  cleanup_user_call c user_id now =
      let id = text_of (live now (r.entry c.store (user_call_key user_id))) in
      let (d, call) = cleanup_found c now id in
      elim c.link [ up ↦ (d, ok call) | down ↦ (c, ok none) | failing ↦ (c, thrown redis_error) ]
