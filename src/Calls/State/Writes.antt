-- ===== src/Calls/State/Writes.antt =====
-- The writes of calls.service.ts keep the calls of two users mutual.
use mathlib.Core.Option.{none-ne-some, some-injective}
use zevra_server.Prelude.{
  ℕ, ◌+◌, String, Bool, true, false, false≢true, ◌||◌, List, [], ◌∷◌, Option, none, some, ◌≡◌, refl,
  ◌∙◌, ap, sym, subst, arith, ◌==◌, eq_iff, eq_refl, leb, if◌then◌else◌, Bool-cases, inl, inr, ◌⊎◌,
  keep, any, not,
}
use zevra_server.Redis.{Redis}
use zevra_server.Redis.Values.{set_fields}
use zevra_server.Calls.State.{
  ringing_fields, connected_fields, ActiveCall, field_of, write_call, write_accepted, delete_call,
}
use zevra_server.Calls.State.Views.{
  named, fields, named-write_call, fields-write_call, named-write_accepted, fields-write_accepted,
  named-delete_call, fields-delete_call,
}
use zevra_server.Calls.State.Entries.{until}
use zevra_server.Calls.State.Mutual.{Joins, IsMutual, framed}

until-eq-some :
    (t d : ℕ) (v j : String) → until t d none (some v) ≡ some j → (leb d t ≡ false) × (v ≡ j)
until-eq-some t d v j h = elim (Bool-cases (leb d t)) [
  | inl e ↦ absurd (none-ne-some j (rw e at h))
  | inr e ↦ (e, some-injective v j (rw e at h))
]

pub if-either :
    (a b u : String)
    → (a ≡ u) ⊎ (b ≡ u)
    → (x y : Option String) → (if b == u then x else if a == u then x else y) ≡ x
if-either a b u (inl e) x y = elim (Bool-cases (b == u)) [
  | inl h ↦ rw h refl
  | inr h ↦ rw h (rw ((eq_iff a u).1 e) refl)
]
if-either a b u (inr e) x y = rw ((eq_iff b u).1 e) refl

field_of-keep :
    (name : String) (p : String × String → Bool)
    → ((f : String × String) → f.0 == name ≡ true → p f ≡ true)
    → (fs : List (String × String)) → field_of name (keep p fs) ≡ field_of name fs
unfolding field_of keep
field_of-keep name p h [] = refl
field_of-keep name p h (f ∷ fs) = ground (arith, h f, field_of-keep name p h fs)

-- Acceptance leaves the fields that it does not write.
pub field_of-connected :
    (now : ℕ) (fs : List (String × String)) (name : String)
    → ("status" == name) || ("startedAt" == name || false) ≡ false
    → field_of name (set_fields (connected_fields now) fs) ≡ field_of name fs
unfolding field_of set_fields any
field_of-connected now fs name h = ground (
  arith,
  field_of-keep name (λ (f : String × String). not (any (λ g. g.0 == f.0) (connected_fields now)))
      (λ f e.
        ap (λ k. not (("status" == k) || (("startedAt" == k) || false))) ((eq_iff f.0 name).0 e)
        ∙ ap not h)
      fs,
)

-- What a pair of users is named after a write that names a call for both of them.
module _ (r : Redis) (now d : ℕ) (s' : r.State) (f : ℕ → String → Option String) (a b id : String)
    (after : (t : ℕ) (u : String)
      → named r t s' u ≡ (
          if b == u
          then until t d none (some id)
          else if a == u
          then until t d none (some id)
          else f t u)) where
  named-other : (t : ℕ) (u : String) → (a == u) ≡ false → (b == u) ≡ false → named r t s' u ≡ f t u
  named-other t u ha hb = after t u ∙ rw hb (rw ha refl)

  named-own : (t : ℕ) (u : String) → (a ≡ u) ⊎ (b ≡ u) → named r t s' u ≡ until t d none (some id)
  named-own t u m = after t u ∙ if-either a b u m _ _

  -- The fields of the call name the two users.
  module _ (fs : List (String × String)) (written : (t : ℕ) → fields r t s' id ≡ until t d [] fs)
      (is_a : field_of "initiatorId" fs ≡ a) (is_b : field_of "targetId" fs ≡ b)
      (call : (id == "") ≡ false) (initiator : (a == "") ≡ false) (target : (b == "") ≡ false)
      (differ : (a == b) ≡ false) where
    member : (u : String) → (a ≡ u) ⊎ (b ≡ u) → (a == u) || (b == u) ≡ true
    member u m = ground (arith, eq_iff a u, eq_iff b u)

    named-early :
        (t : ℕ) (u : String) → (a ≡ u) ⊎ (b ≡ u) → leb d t ≡ false → named r t s' u ≡ some id
    named-early t u m early = named-own t u m ∙ rw early refl

    Joins-early :
        (t : ℕ) (u : String) → (a ≡ u) ⊎ (b ≡ u) → leb d t ≡ false → Joins (named r t s') fs u id
    Joins-early t u m early = (
      call,
      ap (λ x. x == "") is_a ∙ initiator,
      ap (λ x. x == "") is_b ∙ target,
      (λ i. is_a i == is_b i) ∙ differ,
      (λ i. (is_a i == u) || (is_b i == u)) ∙ member u m,
      ap (named r t s') is_a ∙ named-early t a (inl refl) early,
      ap (named r t s') is_b ∙ named-early t b (inr refl) early,
    )

    own-Joins :
        (t : ℕ) (u j : String)
        → (a ≡ u) ⊎ (b ≡ u)
        → named r t s' u ≡ some j
        → Joins (named r t s') (fields r t s' j) u j
    own-Joins t u j m k =
        let (early, same) = until-eq-some t d id j (sym (named-own t u m) ∙ k) in
        subst (λ j. Joins (named r t s') (fields r t s' j) u j) same
          (subst (λ l. Joins (named r t s') l u id) (sym (written t ∙ rw early refl))
            (Joins-early t u m early))

module _ (r : Redis) (now : ℕ) (s : r.State) (c : ActiveCall) (call : (c.call_id == "") ≡ false)
    (initiator : (c.initiator_id == "") ≡ false) (target : (c.target_id == "") ≡ false)
    (differ : (c.initiator_id == c.target_id) ≡ false) (before : IsMutual r now s) where
  pub write_call-IsMutual :
      ((u : String) → named r now s u ≡ some c.call_id → ⊥)
      → fields r now s c.call_id ≡ []
      → named r now s c.initiator_id ≡ none
      → named r now s c.target_id ≡ none
      → IsMutual r now (write_call r c now s)
  unfolding field_of set_fields keep
  write_call-IsMutual unnamed empty free_a free_b =
      framed r now s (write_call r c now s) c.initiator_id c.target_id c.call_id
        (named-other r now (now + 120000) (write_call r c now s) (λ t u. named r t s u)
          c.initiator_id c.target_id c.call_id (λ t u. named-write_call r now t s c u))
        (λ t j h. fields-write_call r now t s c j ∙ rw h refl) (λ u _ _ h. unnamed u h)
        (λ u j m h. absurd (none-ne-some j (sym (free m) ∙ h)))
        (λ t _ u j m k.
          own-Joins r now (now + 120000) (write_call r c now s) (λ t u. named r t s u)
            c.initiator_id c.target_id c.call_id (λ t u. named-write_call r now t s c u)
            (ringing_fields c now)
            (λ t. fields-write_call r now t s c c.call_id ∙ rw (eq_refl c.call_id) (rw empty refl))
            refl refl call initiator target differ t u j m k)
        before
    where
      free : {u : String} → (c.initiator_id ≡ u) ⊎ (c.target_id ≡ u) → named r now s u ≡ none
      free (inl e) = ap (named r now s) (sym e) ∙ free_a
      free (inr e) = ap (named r now s) (sym e) ∙ free_b

  module _ (named_a : named r now s c.initiator_id ≡ some c.call_id)
      (named_b : named r now s c.target_id ≡ some c.call_id)
      (is_a : field_of "initiatorId" (fields r now s c.call_id) ≡ c.initiator_id)
      (is_b : field_of "targetId" (fields r now s c.call_id) ≡ c.target_id) where
    -- Nobody else is in the call, and its users are in no other.
    pub others_out :
        (u : String)
        → (c.initiator_id == u) ≡ false
        → (c.target_id == u) ≡ false
        → named r now s u ≡ some c.call_id
        → ⊥
    others_out u ha hb k =
        let (_, _, _, _, m, _, _) = before now (omega arith) u c.call_id k in
        let either : (c.initiator_id == u) || (c.target_id == u) ≡ true =
          sym (λ i. (is_a i == u) || (is_b i == u)) ∙ m in
        false≢true (sym (λ i. ha i || hb i) ∙ either)

    only_in :
        (u j : String)
        → (c.initiator_id ≡ u) ⊎ (c.target_id ≡ u)
        → named r now s u ≡ some j
        → c.call_id ≡ j
    only_in u j (inl e) k = some-injective c.call_id j (sym named_a ∙ ap (named r now s) e ∙ k)
    only_in u j (inr e) k = some-injective c.call_id j (sym named_b ∙ ap (named r now s) e ∙ k)

    pub write_accepted-IsMutual : IsMutual r now (write_accepted r c now s)
    write_accepted-IsMutual =
        framed r now s (write_accepted r c now s) c.initiator_id c.target_id c.call_id
          (named-other r now (now + 14400000) (write_accepted r c now s) (λ t u. named r t s u)
            c.initiator_id c.target_id c.call_id
            (λ t u. named-write_accepted r now t s c u named_b named_a))
          (λ t j h. fields-write_accepted r now t s c j ∙ rw h refl) others_out only_in
          (λ t _ u j m k.
            own-Joins r now (now + 14400000) (write_accepted r c now s) (λ t u. named r t s u)
              c.initiator_id c.target_id c.call_id
              (λ t u. named-write_accepted r now t s c u named_b named_a)
              (set_fields (connected_fields now) (fields r now s c.call_id))
              (λ t. fields-write_accepted r now t s c c.call_id ∙ rw (eq_refl c.call_id) refl)
              (field_of-connected now _ "initiatorId" refl ∙ is_a)
              (field_of-connected now _ "targetId" refl ∙ is_b) call initiator target differ t u j m
              k)
          before

    pub delete_call-IsMutual :
        IsMutual r now (delete_call r c.call_id (fields r now s c.call_id) now s)
    delete_call-IsMutual =
        framed r now s (delete_call r c.call_id (fields r now s c.call_id) now s) c.initiator_id
          c.target_id c.call_id (λ t u ha hb. named-gone t u ∙ rw hb (rw ha refl))
          (λ t j h. fields-delete_call r now t s c.call_id (fields r now s c.call_id) j ∙ rw h refl)
          others_out only_in (λ t _ u j m k. absurd (none-ne-some j (sym (gone t u m) ∙ k))) before
      where
        named-gone :
            (t : ℕ) (u : String)
            → named r t (delete_call r c.call_id (fields r now s c.call_id) now s) u ≡ (
                if c.target_id == u
                then none
                else if c.initiator_id == u
                then none
                else named r t s u)
        named-gone t u =
            named-delete_call r now t s c.call_id (fields r now s c.call_id) u
              (ap (λ x. x == "") is_b ∙ target) (ap (λ x. x == "") is_a ∙ initiator)
            ∙ (λ i. if is_b i == u then none else if is_a i == u then none else named r t s u)

        gone :
            (t : ℕ) (u : String)
            → (c.initiator_id ≡ u) ⊎ (c.target_id ≡ u)
            → named r t (delete_call r c.call_id (fields r now s c.call_id) now s) u ≡ none
        gone t u m = named-gone t u ∙ if-either c.initiator_id c.target_id u m _ _
