-- ===== src/Redis/Values.antt =====
-- The values that the server keeps in Redis, and the documented effect of the commands on them.
pub mod Sorted
use Prim.Native.Nat.{Ordering}
use Prim.Native.String.{compare}
use zevra_server.Prelude.{
  ℕ, zero, suc, ◌+◌, ◌-◌, ◌*◌, String, Bool, not, ◌&&◌, ◌||◌, true, false, Option, none, some, List,
  [], ◌∷◌, ◌++◌, ◌==◌, ltb, leb, eqb, keep, any, length, if◌then◌else◌,
}

pub data Value : Type 0 where
  text : String → Value
  counter : ℕ → Value
  -- scores and members, by score and then by member
  sorted : List (ℕ × String) → Value
  items : List String → Value
  members : List String → Value
  hash : List (String × String) → Value

pub record Entry : Type 0 where
  pub value : Value
  -- the time at which the entry vanishes
  pub deadline : Option ℕ

unfoldable pub is_past : ℕ → Option ℕ → Bool
is_past now none = false
is_past now (some d) = leb d now

unfoldable pub live : ℕ → Option Entry → Option Entry
unfolding is_past
live now none = none
live now (some e) = if is_past now e.deadline then none else some e

pub data Command : Type 0 where
  set_ex : ℕ → Value → Command
  del : Command
  expire : ℕ → Command
  pexpire : ℕ → Command
  incr : Command
  z_add : ℕ → String → Command
  z_rem : List String → Command
  z_rem_up_to : ℕ → Command
  r_push : String → Command
  l_trim : ℕ → Command
  s_add : List String → Command
  h_set : List (String × String) → Command

abbrev pub mem : String → List String → Bool
mem m = any (λ x. x == m)

after_text : String → String → Bool
after_text a b = elim (compare a b) [ Ordering.gt ↦ true | _ ↦ false ]

unfoldable pub z_insert : ℕ → String → List (ℕ × String) → List (ℕ × String)
unfolding after_text
z_insert score m [] = (score, m) ∷ []
z_insert score m ((s, x) ∷ l) =
    let rest = z_insert score m l in
    if ltb score s || (eqb score s && after_text x m)
    then (score, m) ∷ (s, x) ∷ l
    else (s, x) ∷ rest

unfoldable pub without : List String → List (ℕ × String) → List (ℕ × String)
without ms = keep (λ e. not (mem e.1 ms))

unfoldable pub above : ℕ → List (ℕ × String) → List (ℕ × String)
above bound = keep (λ e. ltb bound e.0)

abbrev pub drop {ℓ} : {A : Type ℓ} → ℕ → List A → List A
drop zero xs = xs
drop (suc n) [] = []
drop (suc n) (x ∷ xs) = drop n xs

abbrev pub take {ℓ} : {A : Type ℓ} → ℕ → List A → List A
take zero xs = []
take (suc n) [] = []
take (suc n) (x ∷ xs) = x ∷ take n xs

-- The last `n` elements.
unfoldable pub last_of {ℓ} : {A : Type ℓ} → ℕ → List A → List A
last_of n xs = drop (length xs - n) xs

-- SADD keeps one of each.
unfoldable pub add_all : List String → List String → List String
add_all [] l = l
add_all (m ∷ ms) l = add_all ms (if mem m l then l else l ++ m ∷ [])

unfoldable pub set_fields : List (String × String) → List (String × String) → List (String × String)
set_fields new old = new ++ keep (λ f. not (any (λ g. g.0 == f.0) new)) old

unfoldable pub with_value : Option Entry → Value → Option Entry
with_value none v = some (record { value = v; deadline = none })
with_value (some e) v = some (record e { value = v })

unfoldable pub with_deadline : Option Entry → ℕ → Option Entry
with_deadline none d = none
with_deadline (some e) d = some (record e { deadline = some d })

unfoldable pub value_of : Option Entry → Option Value
value_of none = none
value_of (some e) = some e.value

-- What a key of each type holds; a missing key is an empty collection.
unfoldable pub sorted_of : Option Entry → List (ℕ × String)
unfolding value_of
sorted_of e = elim (value_of e) [ some (sorted l) ↦ l | _ ↦ [] ]

unfoldable pub items_of : Option Entry → List String
unfolding value_of
items_of e = elim (value_of e) [ some (items l) ↦ l | _ ↦ [] ]

unfoldable pub members_of : Option Entry → List String
unfolding value_of
members_of e = elim (value_of e) [ some (members l) ↦ l | _ ↦ [] ]

unfoldable pub hash_of : Option Entry → List (String × String)
unfolding value_of
hash_of e = elim (value_of e) [ some (hash l) ↦ l | _ ↦ [] ]

unfoldable pub counter_of : Option Entry → ℕ
unfolding value_of
counter_of e = elim (value_of e) [ some (counter n) ↦ n | _ ↦ 0 ]

-- A collection that becomes empty is removed.
unfoldable pub or_gone {ℓ} : {A : Type ℓ} → (List A → Value) → Option Entry → List A → Option Entry
unfolding with_value
or_gone make e [] = none
or_gone make e (x ∷ xs) = with_value e (make (x ∷ xs))

-- Whether INCR counts: the key is missing or holds a numeral. A `text` is one that is no numeral. The
-- counters stay far below the 2^63 at which INCR is an error too.
unfoldable pub can_count : Option Entry → Bool
can_count none = true
can_count (some e) = elim e.value [ counter n ↦ true | _ ↦ false ]

-- INCR of a value that is no numeral is an error, and changes nothing. The other commands meet only
-- keys of their own type: each key of the server is written as one type.
unfoldable pub effect : ℕ → Command → Option Entry → Option Entry
unfolding with_value with_deadline or_gone can_count
effect now (set_ex seconds v) e =
    some (record { value = v; deadline = some (now + seconds * 1000) })
effect now del e = none
effect now (expire seconds) e = with_deadline e (now + seconds * 1000)
effect now (pexpire ms) e = with_deadline e (now + ms)
effect now incr e = if can_count e then with_value e (counter (counter_of e + 1)) else e
effect now (z_add score m) e =
    with_value e (sorted (z_insert score m (without (m ∷ []) (sorted_of e))))
effect now (z_rem ms) e = or_gone sorted e (without ms (sorted_of e))
effect now (z_rem_up_to bound) e = or_gone sorted e (above bound (sorted_of e))
effect now (r_push v) e = with_value e (items (items_of e ++ v ∷ []))
effect now (l_trim n) e = or_gone items e (last_of n (items_of e))
effect now (s_add ms) e = with_value e (members (add_all ms (members_of e)))
effect now (h_set fields) e = with_value e (hash (set_fields fields (hash_of e)))
