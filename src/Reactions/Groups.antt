-- ===== src/Reactions/Groups.antt =====
-- The plain object in which `getReactions` groups rows by emoji, reactions.service.ts. Its own keys
-- are kept as groups in the order of their making; the names it inherits are no groups.
pub mod Contents
mod Tests
use zevra_server.Prelude.{
  ℕ, ◌+◌, String, Bool, true, false, not, ◌&&◌, List, [], ◌∷◌, ◌++◌, Option, none, some, ◌==◌, ltb,
  eqb, if◌then◌else◌, ◌≡◌, refl, arith,
}
use zevra_server.Js.{object, field, end, string, codes, includes}
use zevra_server.Js.Decimal.{number_of}
use zevra_server.Schema.{Reaction}
use zevra_server.Errors.Thrown.{Thrown, Result, ok, thrown, other}

pub record Group : Type 0 where
  pub emoji : String
  pub user_ids : List String
  pub count : ℕ

-- The names that `{}` has from `Object.prototype`.
unfoldable pub is_inherited : String → Bool
is_inherited = includes (
    "constructor" ∷ "toString" ∷ "toLocaleString" ∷ "valueOf" ∷ "hasOwnProperty" ∷ "isPrototypeOf"
    ∷ "propertyIsEnumerable" ∷ "__proto__" ∷ "__defineGetter__" ∷ "__defineSetter__"
    ∷ "__lookupGetter__" ∷ "__lookupSetter__" ∷ [])

-- `??=` leaves an inherited value, which has no `userIds`.
abbrev pub type_error : Thrown
type_error =
    other
      (object (field "message" (string "Cannot read properties of undefined (reading 'push')") end))

pub add_row : Reaction → List Group → List Group
add_row r [] = record { emoji = r.emoji; user_ids = r.user_id ∷ []; count = 1 } ∷ []
add_row r (g ∷ gs) =
    let rest = add_row r gs in
    if g.emoji == r.emoji
    then record g { user_ids = g.user_ids ++ r.user_id ∷ []; count = g.count + 1 } ∷ gs
    else g ∷ rest

-- The loop over the rows.
unfoldable pub group_rows : List Group → List Reaction → Result (List Group)
group_rows gs [] = ok gs
group_rows gs (r ∷ rs) =
    let rest = group_rows (add_row r gs) rs in
    if is_inherited r.emoji then thrown type_error else rest

no_leading_zero : List ℕ → Bool
no_leading_zero [] = false
no_leading_zero (c ∷ []) = true
no_leading_zero (c ∷ d ∷ cs) = not (eqb c b'0')

-- The number of a key that is an array index.
key_index : String → Option ℕ
unfolding no_leading_zero
key_index key = elim (number_of key) [
  | some n ↦ if no_leading_zero (codes key) && ltb n 4294967295 then some n else none
  | none ↦ none
]

index_first : Option ℕ → Option ℕ → Bool
index_first (some m) (some n) = ltb m n
index_first (some m) none = true
index_first none o = false

-- Whether a key is listed before another that was made earlier: array indices come first, ascending.
pub overtakes : String → String → Bool
unfolding index_first
overtakes key earlier = index_first (key_index key) (key_index earlier)

pub place : Group → List Group → List Group
place g [] = g ∷ []
place g (x ∷ xs) =
    let rest = place g xs in if overtakes x.emoji g.emoji then x ∷ rest else g ∷ x ∷ xs

-- The order of `Object.values`.
pub in_key_order : List Group → List Group
in_key_order [] = []
in_key_order (g ∷ gs) = place g (in_key_order gs)

index_first_self : (o : Option ℕ) → index_first o o ≡ false
unfolding index_first
index_first_self none = refl
index_first_self (some n) = ground arith

pub overtakes_self : (key : String) → overtakes key key ≡ false
unfolding overtakes
overtakes_self key = index_first_self (key_index key)
