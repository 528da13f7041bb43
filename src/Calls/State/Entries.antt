-- ===== src/Calls/State/Entries.antt =====
-- What an entry of Redis with a deadline holds at a later time, after the commands of calls.service.ts.
use mathlib.Core.Option.{none-ne-some}
use zevra_server.Prelude.{
  ℕ, ◌≤◌, String, Bool, true, false, List, [], Option, none, some, ◌≡◌, refl, ◌∙◌, ap, arith, leb,
  if◌then◌else◌, Bool-cases, inl, inr,
}
use zevra_server.Redis.Values.{
  Entry, Value, hash, effect, live, is_past, hash_of, with_value, with_deadline, set_fields, h_set,
}
use zevra_server.Redis.Session.{text_of}

pub unfolded_past : (t : ℕ) (d : ℕ) → is_past t (some d) ≡ leb d t
unfolding is_past
unfolded_past t d = refl

pub text_of_mono :
    (now t : ℕ) (e : Option Entry) (v : String)
    → now ≤ t
    → text_of (live t e) ≡ some v
    → text_of (live now e) ≡ some v
unfolding live text_of
text_of_mono now t none v h k = k
text_of_mono now t (some e) v h k = past e.deadline k
  where
    past :
        (d : Option ℕ)
        → text_of (if is_past t d then none else some e) ≡ some v
        → text_of (if is_past now d then none else some e) ≡ some v
    past none k = k
    past (some d) k = elim (Bool-cases (leb d t)) [
      | inl over ↦ absurd (none-ne-some v (rw over at k))
      | inr early ↦ let still : leb d now ≡ false = ground arith in rw still (rw early at k)
    ]

-- Of a value with a deadline: what is left of it at a time.
abbrev pub until {ℓ} : {A : Type ℓ} → ℕ → ℕ → A → A → A
until t deadline gone x = if leb deadline t then gone else x

pub text_of-live :
    (t d : ℕ) (v : Value)
    → text_of (live t (some (record { value = v; deadline = some d })))
      ≡ until t d none (text_of (some (record { value = v; deadline = none })))
unfolding text_of live is_past
text_of-live t d v = elim (Bool-cases (leb d t)) [ inl h ↦ rw h | inr h ↦ rw h ]

pub hash_of-live :
    (t d : ℕ) (v : Value)
    → hash_of (live t (some (record { value = v; deadline = some d })))
      ≡ until t d [] (hash_of (some (record { value = v; deadline = none })))
unfolding hash_of live is_past
hash_of-live t d v = elim (Bool-cases (leb d t)) [ inl h ↦ rw h | inr h ↦ rw h ]

pub live_again :
    (now : ℕ) (e : Option Entry) (v : Value)
    → live now (with_value (live now e) v) ≡ with_value (live now e) v
unfolding live with_value is_past
live_again now none v = refl
live_again now (some e) v = again e.deadline
  where
    again :
        (d : Option ℕ)
        → live now (with_value (if is_past now d then none else some (record e { deadline = d })) v)
          ≡ with_value (if is_past now d then none else some (record e { deadline = d })) v
    again none = refl
    again (some d) = elim (Bool-cases (leb d now)) [ inl h ↦ rw h | inr h ↦ rw h (rw h) ]

-- HSET and EXPIRE in a pipeline.
pub hash_of-h_set :
    (now t d : ℕ) (e : Option Entry) (new : List (String × String))
    → hash_of (live t (with_deadline (live now (effect now (h_set new) (live now e))) d))
      ≡ until t d [] (set_fields new (hash_of (live now e)))
unfolding effect with_value hash_of
hash_of-h_set now t d e new =
    rw (live_again now e (hash (set_fields new (hash_of (live now e)))))
      (set (live now e) (set_fields new (hash_of (live now e))))
  where
    set :
        (e : Option Entry) (l : List (String × String))
        → hash_of (live t (with_deadline (with_value e (hash l)) d)) ≡ until t d [] l
    set none l = hash_of-live t d (hash l)
    set (some e) l = hash_of-live t d (hash l)

pub ap-if :
    {A B : Type 0} (f : A → B) (b : Bool) (x y : A)
    → f (if b then x else y) ≡ (if b then f x else f y)
ap-if f true x y = refl
ap-if f false x y = refl

pub if-if :
    {A : Type 0} (b : Bool) (x y z : A)
    → (if b then x else if b then y else z) ≡ (if b then x else z)
if-if true x y z = refl
if-if false x y z = refl

pub text_of-expire :
    (now t d : ℕ) (e : Option Entry) (v : String)
    → text_of (live now e) ≡ some v
    → text_of (live t (with_deadline (live now e) d)) ≡ until t d none (some v)
unfolding with_deadline text_of
text_of-expire now t d e v h = expired (live now e) h
  where
    expired :
        (e : Option Entry)
        → text_of e ≡ some v
        → text_of (live t (with_deadline e d)) ≡ until t d none (some v)
    expired none h = absurd (none-ne-some v h)
    expired (some e) h = text_of-live t d e.value ∙ ap (until t d none) h
