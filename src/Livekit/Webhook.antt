-- ===== src/Livekit/Webhook.antt =====
-- src/modules/livekit/livekit.webhook.ts: the rows of calls in rooms of LiveKit, as its events come. Ids
-- that Postgres generates are arguments. An error of Postgres is only logged: a room name that is too
-- long, or a participant who is no user.
pub mod Sessions
mod Tests
use Prim.Native.Char.{code}
use zevra_server.Prelude.{
  ℕ, zero, suc, ◌+◌, ◌-◌, ◌/◌, String, Bool, true, false, not, ◌&&◌, List, [], ◌∷◌, Option, none,
  some, ◌==◌, any, find, length, ltb, leb, if◌then◌else◌,
}
use zevra_server.Js.{codes}
use zevra_server.Schema.{User, CallLog, CallParticipant}
use zevra_server.Store.{Backend, World, select, select_one}
use zevra_server.Uuid.{is_uuid_text, same_uuid}

is_named : String → Option String → Bool
is_named room none = false
is_named room (some name) = name == room

is_absent {ℓ} : {A : Type ℓ} → Option A → Bool
is_absent none = true
is_absent (some a) = false

unfoldable pub is_room : String → CallLog → Bool
unfolding is_named
is_room room l = is_named room l.room_name

-- A row of the room whose call has not ended.
unfoldable pub is_open : String → CallLog → Bool
unfolding is_room is_absent
is_open room l = is_room room l && is_absent l.ended_at

newer : CallLog → Option CallLog → CallLog
newer l none = l
newer l (some m) = if ltb l.started_at m.started_at then m else l

-- `ORDER BY started_at DESC LIMIT 1`
unfoldable pub latest : List CallLog → Option CallLog
unfolding newer
latest [] = none
latest (l ∷ ls) = some (newer l (latest ls))

-- The column holds 128 characters.
abbrev pub fits : String → Bool
fits room = leb (length (codes room)) 128

abbrev pub room_log : String → String → ℕ → Option ℕ → Option ℕ → String → CallLog
room_log room id now ended duration status = record {
  id = id;
  type = "LIVEKIT";
  caller_id = none;
  callee_id = none;
  room_name = some room;
  started_at = now;
  ended_at = ended;
  duration = duration;
  status = status;
  channel_id = none;
}

-- A duration in seconds that Postgres rounds.
abbrev pub finished : ℕ → CallLog → CallLog
finished now l = record l {
  ended_at = some now;
  duration = some ((now - l.started_at + 500) / 1000);
  status = "completed";
}

-- `slice(0, n)`, in units of UTF-16; half of a character is stored as U+FFFD.
unfoldable pub first_units : ℕ → String → String
first_units n String.[] = String.[]
first_units zero (String.◌∷◌ c s) = String.[]
first_units (suc zero) (String.◌∷◌ c s) =
    String.◌∷◌ (if ltb (code c) 0x10000 then c else "�") String.[]
first_units (suc (suc n)) (String.◌∷◌ c s) =
    let one = first_units (suc n) s in
    let two = first_units n s in String.◌∷◌ c (if ltb (code c) 0x10000 then one else two)

abbrev pub is_in : String → String → CallParticipant → Bool
is_in log_id identity p = p.call_log_id == log_id && same_uuid p.user_id identity

module _ (b : Backend) where
  -- The open row of the room, or a new one, by its id.
  started : World b → String → String → ℕ → Option CallLog → World b × Option String
  started w room id now (some l) = (w, some l.id)
  started w room id now none =
      if fits room
      then (
        record w {
          call_logs = b.call_logs.insert (room_log room id now none none "missed") w.call_logs;
        },
        some id,
      )
      else (w, none)

  pub handle_room_started : World b → String → String → ℕ → World b × Option String
  unfolding started latest is_open
  handle_room_started w room id now =
      started w room id now (latest (select b.call_logs (is_open room) w.call_logs))

  pub handle_room_finished : World b → String → String → ℕ → World b
  unfolding is_open
  handle_room_finished w room id now =
      if any (is_open room) (b.call_logs.rows w.call_logs)
      then record w { call_logs = b.call_logs.update (is_open room) (finished now) w.call_logs }
      else if fits room
      then record w {
        call_logs =
            b.call_logs.insert (room_log room id now (some now) (some 0) "completed") w.call_logs;
      }
      else w

  -- A new participant, if the identity is that of a user.
  new_participant : World b → String → String → String → ℕ → Option User → World b
  unfolding first_units
  new_participant w log_id name id now none = w
  new_participant w log_id name id now (some u) = record w {
    call_participants =
        b.call_participants.insert
          (record {
            id = id;
            call_log_id = log_id;
            user_id = u.id;
            username = first_units 32 name;
            joined_at = now;
            left_at = none;
            duration = none;
          })
          w.call_participants;
  }

  join_log : World b → String → String → String → ℕ → Option CallLog → World b
  unfolding new_participant
  join_log w identity name id now none = w
  join_log w identity name id now (some l) =
      if any (is_in l.id identity) (b.call_participants.rows w.call_participants)
      then record w {
        call_participants =
            b.call_participants.update (is_in l.id identity)
              (λ p. record p { joined_at = now; left_at = none; duration = none })
              w.call_participants;
      }
      else new_participant w l.id name id now
          (select_one b.users (λ u. same_uuid u.id identity) w.users)

  pub handle_participant_joined : World b → String → String → String → String → ℕ → World b
  unfolding join_log latest is_room
  handle_participant_joined w room identity name id now =
      if is_uuid_text identity
      then join_log w identity name id now (latest (select b.call_logs (is_room room) w.call_logs))
      else w

  leave : World b → ℕ → Option CallParticipant → World b
  leave w now none = w
  leave w now (some p) = record w {
    call_participants =
        b.call_participants.update (λ q. q.id == p.id)
          (λ q. record q { left_at = some now; duration = some ((now - p.joined_at) / 1000) })
          w.call_participants;
  }

  leave_log : World b → String → ℕ → Option CallLog → World b
  unfolding leave
  leave_log w identity now none = w
  leave_log w identity now (some l) =
      leave w now (select_one b.call_participants (is_in l.id identity) w.call_participants)

  pub handle_participant_left : World b → String → String → ℕ → World b
  unfolding leave_log latest is_room
  handle_participant_left w room identity now =
      if is_uuid_text identity
      then leave_log w identity now (latest (select b.call_logs (is_room room) w.call_logs))
      else w
