-- ===== src/Calls/Inputs/Targets.antt =====
-- The target that a list of ids gives is an id, of another user.
use mathlib.Core.Option.{none-ne-some, some-injective}
use zevra_server.Prelude.{
  ℕ, String, false, List, [], ◌∷◌, Option, none, some, ◌≡◌, subst, ◌==◌, eq_iff, arith, leb, length,
  Option-cases, Bool-cases, inl, inr,
}
use zevra_server.Js.{JsValue, Items, nil, cons}
use zevra_server.Uuid.{uuid_of}
use zevra_server.Uuid.Extends.{uuid_of-full}
use zevra_server.Calls.Inputs.{items_of, uuids, with_first, capped, uuid_list, target_of}

pub target_of-differs :
    (user_id : String) (ids : List String) (id : String)
    → target_of user_id ids ≡ some id
    → (user_id == id) ≡ false
unfolding target_of
target_of-differs user_id [] id h = ground arith
target_of-differs user_id (x ∷ ids) id h = ground (arith, eq_iff x user_id, eq_iff user_id id)

-- Of a list whose first element, if it has one, is not the empty text.
abbrev StartsFull : List String → Type 0
StartsFull [] = Unit
StartsFull (x ∷ xs) = (x == "") ≡ false

target_of-full :
    (user_id : String) (ids : List String) (id : String)
    → StartsFull ids
    → target_of user_id ids ≡ some id
    → (id == "") ≡ false
unfolding target_of
target_of-full user_id [] id f h = absurd (none-ne-some id h)
target_of-full user_id (x ∷ ids) id f h = elim (Bool-cases (x == user_id)) [
  | inl e ↦ absurd (none-ne-some id (rw e at h))
  | inr e ↦ subst (λ y. (y == "") ≡ false) (some-injective x id (rw e at h)) f
]

with_first-full :
    (x : String) (o : Option (List String)) (ids : List String)
    → (x == "") ≡ false
    → with_first x o ≡ some ids
    → StartsFull ids
unfolding with_first
with_first-full x none ids f h = absurd (none-ne-some ids h)
with_first-full x (some xs) ids f h = subst StartsFull (some-injective (x ∷ xs) ids h) f

uuids-full : (items : Items) (ids : List String) → uuids items ≡ some ids → StartsFull ids
unfolding uuids
uuids-full nil ids h = subst StartsFull (some-injective [] ids h) tt
uuids-full (cons v vs) ids h = elim (Option-cases (uuid_of v)) [
  | inl e ↦ absurd (none-ne-some ids (rw (e, uuids) at h))
  | inr (x, e) ↦ with_first-full x (uuids vs) ids (uuid_of-full v x e) (rw (e, uuids) at h)
]

capped-full :
    (n : ℕ) (o : Option (List String)) (ids : List String) → capped n o ≡ some ids → o ≡ some ids
unfolding capped
capped-full n none ids h = h
capped-full n (some xs) ids h = elim (Bool-cases (leb (length xs) n)) [
  | inl e ↦ rw e at h
  | inr e ↦ absurd (none-ne-some ids (rw e at h))
]

pub uuid_list-full :
    (v : JsValue) (n : ℕ) (ids : List String)
    → uuid_list v n ≡ some ids
    → (user_id id : String) → target_of user_id ids ≡ some id
    → (id == "") ≡ false
unfolding uuid_list
uuid_list-full v n ids h user_id id k = elim (Option-cases (items_of v)) [
  | inl e ↦ absurd (none-ne-some ids (rw (e, uuid_list) at h))
  | inr (items, e) ↦
      target_of-full user_id ids id
        (uuids-full items ids (capped-full n (uuids items) ids (rw (e, uuid_list) at h))) k
]
