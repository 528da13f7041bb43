-- ===== src/Calls/State/Views.antt =====
-- The call that a user's key names and the fields of a call, after the writes of calls.service.ts.
use zevra_server.Prelude.{
  ℕ, ◌+◌, ◌*◌, String, false, List, [], Option, none, some, ◌≡◌, refl, ◌∙◌, ap, arith, ◌==◌, leb,
  if◌then◌else◌, Bool-cases, inl, inr,
}
use zevra_server.Redis.Laws.{entry-run_self}
use zevra_server.Redis.{Redis, same_key}
use zevra_server.Redis.Values.{
  Command, text, effect, live, hash_of, set_fields, h_set, expire, set_ex, del,
}
use zevra_server.Redis.Session.{text_of}
use zevra_server.Calls.State.{
  connected_ttl_seconds, ringing_fields, connected_fields, ActiveCall, room_key, user_call_key,
  field_of, write_call, write_accepted, delete_user_key, delete_call,
}
use zevra_server.Calls.State.Entries.{
  until, text_of-live, hash_of-h_set, ap-if, if-if, text_of-expire,
}

pub same_key-users : (a u : String) → same_key (user_call_key a) (user_call_key u) ≡ (a == u)
same_key-users a u = ground arith

pub same_key-rooms : (a u : String) → same_key (room_key a) (room_key u) ≡ (a == u)
same_key-rooms a u = ground arith

module _ (r : Redis) where
  -- The call that the user's key names at a time, and the fields of a call.
  abbrev pub named : ℕ → r.State → String → Option String
  named t s user_id = text_of (live t (r.entry s (user_call_key user_id)))

  abbrev pub fields : ℕ → r.State → String → List (String × String)
  fields t s call_id = hash_of (live t (r.entry s (room_key call_id)))

module _ (r : Redis) (now t : ℕ) (s : r.State) (a : String) (c : Command) where
  named-run_user :
      (u : String)
      → named r t (r.run now (user_call_key a) c s) u ≡ (
          if a == u
          then text_of (live t (effect now c (live now (r.entry s (user_call_key a)))))
          else named r t s u)
  named-run_user u =
      rw (r.entry_run now (user_call_key a) c s (user_call_key u), same_key-users a u)
        (ap-if (λ e. text_of (live t e)) (a == u) _ _)

  named-run_room : (u : String) → named r t (r.run now (room_key a) c s) u ≡ named r t s u
  named-run_room u = rw (r.entry_run now (room_key a) c s (user_call_key u)) refl

  fields-run_user :
      (id : String) → fields r t (r.run now (user_call_key a) c s) id ≡ fields r t s id
  fields-run_user id = rw (r.entry_run now (user_call_key a) c s (room_key id)) refl

  fields-run_room :
      (id : String)
      → fields r t (r.run now (room_key a) c s) id ≡ (
          if a == id
          then hash_of (live t (effect now c (live now (r.entry s (room_key a)))))
          else fields r t s id)
  fields-run_room id =
      rw (r.entry_run now (room_key a) c s (room_key id), same_key-rooms a id)
        (ap-if (λ e. hash_of (live t e)) (a == id) _ _)

-- The writes of one key each, seen at a later time.
module _ (r : Redis) (now t : ℕ) where
  named-set_ex :
      (s : r.State) (a v : String) (n : ℕ) (u : String)
      → named r t (r.run now (user_call_key a) (set_ex n (text v)) s) u
        ≡ (if a == u then until t (now + n * 1000) none (some v) else named r t s u)
  unfolding effect text_of
  named-set_ex s a v n u =
      named-run_user r now t s a (set_ex n (text v)) u
      ∙ ap (λ x. if a == u then x else named r t s u) (text_of-live t (now + n * 1000) (text v))

  named-expire :
      (s : r.State) (a v : String) (n : ℕ)
      → named r now s a ≡ some v
      → (u : String)
      → named r t (r.run now (user_call_key a) (expire n) s) u
        ≡ (if a == u then until t (now + n * 1000) none (some v) else named r t s u)
  unfolding effect
  named-expire s a v n h u =
      named-run_user r now t s a (expire n) u
      ∙ ap (λ x. if a == u then x else named r t s u)
          (text_of-expire now t (now + n * 1000) (r.entry s (user_call_key a)) v h)

  named-delete :
      (s : r.State) (a u : String)
      → named r t (r.run now (user_call_key a) del s) u ≡ (if a == u then none else named r t s u)
  unfolding effect text_of live
  named-delete s a u = named-run_user r now t s a del u

  fields-h_set :
      (s : r.State) (a : String) (n : ℕ) (new : List (String × String)) (id : String)
      → fields r t (r.run now (room_key a) (expire n) (r.run now (room_key a) (h_set new) s)) id ≡ (
          if a == id
          then until t (now + n * 1000) [] (set_fields new (fields r now s a))
          else fields r t s id)
  unfolding effect
  fields-h_set s a n new id =
      fields-run_room r now t (r.run now (room_key a) (h_set new) s) a (expire n) id
      ∙ rw (entry-run_self r now (room_key a) (h_set new) s) (
          rw (fields-run_room r now t s a (h_set new) id) (
            rw (hash_of-h_set now t (now + n * 1000) (r.entry s (room_key a)) new)
              (if-if (a == id) _ _ _)))

still-named :
    (r : Redis) (now : ℕ) (s : r.State) (a u v : String)
    → named r now s a ≡ some v
    → named r now s u ≡ some v
    → named r now (r.run now (user_call_key a) (expire connected_ttl_seconds) s) u ≡ some v
still-named r now s a u v ha hu =
    named-expire r now now s a v connected_ttl_seconds ha u ∙ elim (Bool-cases (a == u)) [
      | inl h ↦ rw h (let early : leb (now + 14400000) now ≡ false = ground arith in rw early refl)
      | inr h ↦ rw h hu
    ]

-- A call until its state runs out, after a write.
module _ (r : Redis) (now t : ℕ) (s : r.State) where
  pub named-write_call :
      (c : ActiveCall) (u : String)
      → named r t (write_call r c now s) u ≡ (
          if c.target_id == u
          then until t (now + 120000) none (some c.call_id)
          else if c.initiator_id == u
          then until t (now + 120000) none (some c.call_id)
          else named r t s u)
  unfolding write_call
  named-write_call c u =
      named-set_ex r now t _ c.target_id c.call_id 120 u
      ∙ ap (λ x. if c.target_id == u then until t (now + 120000) none (some c.call_id) else x)
          (named-set_ex r now t _ c.initiator_id c.call_id 120 u
            ∙ ap
                (λ x.
                  if c.initiator_id == u then until t (now + 120000) none (some c.call_id) else x)
                (named-run_room r now t _ c.call_id _ u ∙ named-run_room r now t _ c.call_id _ u))

  pub fields-write_call :
      (c : ActiveCall) (id : String)
      → fields r t (write_call r c now s) id ≡ (
          if c.call_id == id
          then until t
              (now + 120000)
              []
              (set_fields (ringing_fields c now) (fields r now s c.call_id))
          else fields r t s id)
  unfolding write_call
  fields-write_call c id =
      fields-run_user r now t _ c.target_id _ id
      ∙ fields-run_user r now t _ c.initiator_id _ id
      ∙ fields-h_set r now t s c.call_id 120 _ id

  pub named-write_accepted :
      (c : ActiveCall) (u : String)
      → named r now s c.target_id ≡ some c.call_id
      → named r now s c.initiator_id ≡ some c.call_id
      → named r t (write_accepted r c now s) u ≡ (
          if c.target_id == u
          then until t (now + 14400000) none (some c.call_id)
          else if c.initiator_id == u
          then until t (now + 14400000) none (some c.call_id)
          else named r t s u)
  unfolding write_accepted
  named-write_accepted c u ht hi =
      named-expire r now t _ c.target_id c.call_id 14400 still u
      ∙ ap (λ x. if c.target_id == u then until t (now + 14400000) none (some c.call_id) else x)
          (named-expire r now t _ c.initiator_id c.call_id 14400 (in_rooms c.initiator_id hi) u
            ∙ ap
                (λ x.
                  if c.initiator_id == u then until t (now + 14400000) none (some c.call_id) else x)
                (named-run_room r now t _ c.call_id _ u ∙ named-run_room r now t _ c.call_id _ u))
    where
      rooms : r.State
      rooms =
          r.run now (room_key c.call_id) (expire connected_ttl_seconds)
            (r.run now (room_key c.call_id) (h_set (connected_fields now)) s)

      in_rooms :
          (u : String) → named r now s u ≡ some c.call_id → named r now rooms u ≡ some c.call_id
      in_rooms u h =
          named-run_room r now now _ c.call_id _ u ∙ named-run_room r now now _ c.call_id _ u ∙ h

      still :
          named r now
            (r.run now (user_call_key c.initiator_id) (expire connected_ttl_seconds) rooms)
            c.target_id
          ≡ some c.call_id
      still =
          still-named r now rooms c.initiator_id c.target_id c.call_id (in_rooms c.initiator_id hi)
            (in_rooms c.target_id ht)

  pub fields-write_accepted :
      (c : ActiveCall) (id : String)
      → fields r t (write_accepted r c now s) id ≡ (
          if c.call_id == id
          then until t
              (now + 14400000)
              []
              (set_fields (connected_fields now) (fields r now s c.call_id))
          else fields r t s id)
  unfolding write_accepted
  fields-write_accepted c id =
      fields-run_user r now t _ c.target_id _ id
      ∙ fields-run_user r now t _ c.initiator_id _ id
      ∙ fields-h_set r now t s c.call_id 14400 _ id

  pub named-delete_user_key :
      (s : r.State) (a u : String)
      → (a == "") ≡ false
      → named r t (delete_user_key r a now s) u ≡ (if a == u then none else named r t s u)
  unfolding delete_user_key
  named-delete_user_key s a u h = rw h (named-delete r now t s a u)

  fields-delete_user_key :
      (s : r.State) (a id : String) → fields r t (delete_user_key r a now s) id ≡ fields r t s id
  unfolding delete_user_key
  fields-delete_user_key s a id = elim (Bool-cases (a == "")) [
    | inl h ↦ rw h refl
    | inr h ↦ rw h (fields-run_user r now t s a del id)
  ]

  pub fields-delete_call :
      (call_id : String) (fs : List (String × String)) (id : String)
      → fields r t (delete_call r call_id fs now s) id
        ≡ (if call_id == id then [] else fields r t s id)
  unfolding delete_call effect hash_of live
  fields-delete_call call_id fs id =
      fields-delete_user_key _ (field_of "targetId" fs) id
      ∙ fields-delete_user_key _ (field_of "initiatorId" fs) id
      ∙ fields-run_room r now t s call_id del id

  pub named-delete_call :
      (call_id : String) (fs : List (String × String)) (u : String)
      → (field_of "targetId" fs == "") ≡ false
      → (field_of "initiatorId" fs == "") ≡ false
      → named r t (delete_call r call_id fs now s) u ≡ (
          if field_of "targetId" fs == u
          then none
          else if field_of "initiatorId" fs == u
          then none
          else named r t s u)
  unfolding delete_call
  named-delete_call call_id fs u ht hi =
      named-delete_user_key _ (field_of "targetId" fs) u ht
      ∙ ap (λ x. if field_of "targetId" fs == u then none else x)
          (named-delete_user_key _ (field_of "initiatorId" fs) u hi
            ∙ ap (λ x. if field_of "initiatorId" fs == u then none else x)
                (named-run_room r now t s call_id del u))
