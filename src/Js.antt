-- ===== src/Js.antt =====
-- The dynamic values of TypeScript that reach the server: thrown values and message bodies.
pub mod Decimal
use Prim.Native.Char.{code}
use zevra_server.Prelude.{
  Option, none, some, any, ℕ, ◌+◌, String, Bool, true, false, ◌&&◌, List, [], ◌∷◌, ◌==◌, leb,
  if◌then◌else◌,
}

-- Numbers are the natural ones; no code that is modelled reads another.
mutual
  pub data JsValue : Type 0 where
    undefined null : JsValue
    boolean : Bool → JsValue
    number : ℕ → JsValue
    string : String → JsValue
    array : Items → JsValue
    object : Fields → JsValue

  pub data Items : Type 0 where
    nil : Items
    cons : JsValue → Items → Items

  pub data Fields : Type 0 where
    end : Fields
    field : String → JsValue → Fields → Fields

-- `fields[key]`
unfoldable pub lookup : String → Fields → JsValue
lookup key end = undefined
lookup key (field k v fs) = let rest = lookup key fs in if k == key then v else rest

-- `value.key`, where a primitive or an array has no such property
unfoldable pub get : JsValue → String → JsValue
unfolding lookup
get (object fs) key = lookup key fs
get _ key = undefined

unfoldable pub first : Items → JsValue
first nil = undefined
first (cons v _) = v

-- `value && typeof value === 'object'`
abbrev pub is_object : JsValue → Bool
is_object (array _) = true
is_object (object _) = true
is_object _ = false

-- The code points of a text.
abbrev pub codes : String → List ℕ
codes String.[] = []
codes (String.◌∷◌ c s) = code c ∷ codes s

unfoldable pub all : (ℕ → Bool) → List ℕ → Bool
all p [] = true
all p (c ∷ cs) = p c && all p cs

abbrev pub is_digit : ℕ → Bool
is_digit c = leb b'0' c && leb c b'9'

abbrev pub is_upper : ℕ → Bool
is_upper c = leb b'A' c && leb c b'Z'

-- The ids of a list without repetitions, as `new Set` keeps them.
unfoldable pub distinct_from : List String → List String → List String
distinct_from seen [] = []
distinct_from seen (x ∷ xs) =
    let rest = distinct_from seen xs in
    let fresh = distinct_from (x ∷ seen) xs in if any (λ y. y == x) seen then rest else x ∷ fresh

abbrev pub includes : List String → String → Bool
includes xs x = any (λ y. y == x) xs

-- An array of texts, and a text or null.
abbrev pub strings : List String → Items
strings [] = nil
strings (x ∷ xs) = cons (string x) (strings xs)

abbrev pub string_or_null : Option String → JsValue
string_or_null none = null
string_or_null (some s) = string s

-- `text.length`, in UTF-16 code units.
abbrev pub units : ℕ → ℕ
units c = if leb 65536 c then 2 else 1

unfoldable pub text_length : List ℕ → ℕ
text_length [] = 0
text_length (c ∷ cs) = units c + text_length cs
