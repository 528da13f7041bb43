-- ===== src/Calls/Logs.antt =====
-- src/modules/calls/calls.service.ts: the rows of calls and of their participants. Ids that Postgres
-- generates are arguments. A row must name users and channels that exist (schema.ts).
pub mod Client
use zevra_server.Prelude.{
  ℕ, ◌-◌, ◌/◌, String, Bool, true, false, not, ◌&&◌, List, [], ◌∷◌, Option, none, some, ◌==◌, any,
  keep, find, if◌then◌else◌,
}
use zevra_server.Js.{object, field, string, end, distinct_from}
use zevra_server.Schema.{User, Channel, CallLog, CallParticipant}
use zevra_server.Store.{Table, Backend, World, select, select_one, insert_unless}
use zevra_server.Errors.Thrown.{Thrown, Result, ok, thrown, other}
use zevra_server.Uuid.{same_uuid}

-- The violation of a foreign key, wrapped by drizzle.
abbrev pub foreign_key_violation : Thrown
foreign_key_violation =
    other (object (field "cause" (object (field "code" (string "23503") end)) end))

-- `toISOString` of an invalid date.
abbrev pub invalid_time : Thrown
invalid_time = other (object end)

-- The id of the row that a nullable foreign key names.
resolve : Option String → (String → Option String) → Result (Option String)
resolve none f = ok none
resolve (some id) f = elim (f id) [ none ↦ thrown foreign_key_violation | some x ↦ ok (some x) ]

user_id_of : Option User → Option String
user_id_of none = none
user_id_of (some u) = some u.id

channel_id_of : Option Channel → Option String
channel_id_of none = none
channel_id_of (some c) = some c.id

-- What `createCallLog` writes, before its foreign keys are looked up.
pub record LogInput : Type 0 where
  pub type : String
  pub initiator_id : String
  pub callee_id : Option String
  pub room_name : Option String
  pub channel_id : Option String

abbrev pub new_log : LogInput → Option String → Option String → Option String → String → ℕ → CallLog
new_log input caller callee channel id now = record {
  id = id;
  type = input.type;
  caller_id = caller;
  callee_id = callee;
  room_name = input.room_name;
  started_at = now;
  ended_at = none;
  duration = none;
  status = "missed";
  channel_id = channel;
}

abbrev pub participant : String → String → String → ℕ → ℕ → ℕ → String → CallParticipant
participant call_log_id user_id username joined now duration id = record {
  id = id;
  call_log_id = call_log_id;
  user_id = user_id;
  username = username;
  joined_at = joined;
  left_at = some now;
  duration = some duration;
}

-- The unique key of the participants.
abbrev pub is_participant : String → String → CallParticipant → Bool
is_participant call_log_id user_id p = p.call_log_id == call_log_id && p.user_id == user_id

-- `names.get(userId)` of the rows of `getUsernames`.
unfoldable pub name_in : List User → String → Option String
name_in [] user_id = none
name_in (u ∷ us) user_id =
    let rest = name_in us user_id in if u.id == user_id then some u.username else rest

abbrev name_or_empty : Option String → String
name_or_empty none = ""
name_or_empty (some name) = name

module _ (b : Backend) where
  -- The rows that `getUsernames` maps; ids are of the type uuid.
  unfoldable pub get_usernames : World b → List String → List User
  get_usernames w user_ids =
      select b.users (λ u. any (λ id. not (id == "") && same_uuid u.id id) user_ids) w.users

  find_user : World b → String → Option String
  unfolding user_id_of
  find_user w id = user_id_of (select_one b.users (λ u. same_uuid u.id id) w.users)

  find_channel : World b → String → Option String
  unfolding channel_id_of
  find_channel w id = channel_id_of (select_one b.channels (λ c. same_uuid c.id id) w.channels)

  insert_log :
      World b
      → LogInput
      → String
      → ℕ
      → Result (Option String)
      → Result (Option String)
      → Result (Option String)
      → World b × Result String
  insert_log w input id now (ok caller) (ok callee) (ok channel) = (
    record w {
      call_logs = b.call_logs.insert (new_log input caller callee channel id now) w.call_logs;
    },
    ok id,
  )
  insert_log w input id now (thrown e) _ _ = (w, thrown e)
  insert_log w input id now (ok _) (thrown e) _ = (w, thrown e)
  insert_log w input id now (ok _) (ok _) (thrown e) = (w, thrown e)

  unfoldable pub create_call_log : World b → LogInput → String → ℕ → World b × Result String
  unfolding insert_log resolve find_user find_channel
  create_call_log w input id now =
      insert_log w input id now (resolve (some input.initiator_id) (find_user w))
        (resolve input.callee_id (find_user w)) (resolve input.channel_id (find_channel w))

  unfoldable pub set_status : World b → String → String → World b
  set_status w call_log_id status = record w {
    call_logs =
        b.call_logs.update (λ l. l.id == call_log_id) (λ l. record l { status = status })
          w.call_logs;
  }

  unfoldable pub update_call_log_accepted : World b → String → World b
  unfolding set_status
  update_call_log_accepted w call_log_id = set_status w call_log_id "completed"

  unfoldable pub update_call_log_rejected : World b → String → World b
  unfolding set_status
  update_call_log_rejected w call_log_id = set_status w call_log_id "rejected"

  abbrev close_log : World b → String → ℕ → ℕ → World b
  close_log w call_log_id now duration = record w {
    call_logs =
        b.call_logs.update (λ l. l.id == call_log_id)
          (λ l. record l { ended_at = some now; duration = some duration; status = "completed" })
          w.call_logs;
  }

  -- Whether the rows that the participants would name are there.
  can_join : World b → String → List String → Bool
  can_join w call_log_id [] = any (λ l. l.id == call_log_id) (b.call_logs.rows w.call_logs)
  can_join w call_log_id (u ∷ us) =
      any (λ x. x.id == u) (b.users.rows w.users) && can_join w call_log_id us

  insert_participants :
      List User
      → String
      → List String
      → ℕ
      → ℕ
      → ℕ
      → (String → String)
      → b.call_participants.State
      → b.call_participants.State
  unfolding name_in
  insert_participants names call_log_id [] joined now duration ids t = t
  insert_participants names call_log_id (u ∷ us) joined now duration ids t =
      insert_participants names call_log_id us joined now duration ids (
        insert_unless b.call_participants (is_participant call_log_id u)
          (participant call_log_id u (name_or_empty (name_in names u)) joined now duration (ids u))
          t)

  add_participants :
      World b → String → List String → ℕ → ℕ → ℕ → (String → String) → World b × Result (Unit {0})
  unfolding can_join insert_participants
  add_participants w call_log_id users joined now duration ids =
      if can_join w call_log_id users
      then (
        record w {
          call_participants =
              insert_participants (get_usernames w users) call_log_id users joined now duration ids
                w.call_participants;
        },
        ok tt,
      )
      else (w, thrown foreign_key_violation)

  -- The caller and the callee join at the start of the call. `ids` are those of their rows.
  unfoldable pub end_call_log :
      World b
      → String
      → String
      → String
      → Option ℕ
      → (String → String)
      → ℕ
      → World b × Result (Unit {0})
  unfolding add_participants
  end_call_log w call_log_id caller_id callee_id none ids now = (w, thrown invalid_time)
  end_call_log w call_log_id caller_id callee_id (some started) ids now =
      add_participants (close_log w call_log_id now ((now - started) / 1000)) call_log_id
        (caller_id ∷ callee_id ∷ []) started now ((now - started) / 1000) ids
