-- ===== src/Messages/Size.antt =====
-- The sizes that src/modules/messages/messages.service.ts checks, of texts and of JSON.
use zevra_server.Prelude.{
  ℕ, zero, suc, ◌+◌, ◌/◌, String, Bool, true, false, ◌||◌, ◌&&◌, List, [], ◌∷◌, ltb, leb, eqb,
  if◌then◌else◌,
}
use zevra_server.Js.{
  JsValue, Items, Fields, undefined, null, boolean, number, string, array, object, nil, cons, end,
  field, codes,
}

sum_of : (ℕ → ℕ) → List ℕ → ℕ
sum_of f [] = 0
sum_of f (c ∷ cs) = f c + sum_of f cs

utf8_size : ℕ → ℕ
utf8_size c = if ltb c 128 then 1 else if ltb c 2048 then 2 else if ltb c 65536 then 3 else 4

utf16_size : ℕ → ℕ
utf16_size c = if ltb c 65536 then 1 else 2

-- `Buffer.byteLength(text, 'utf-8')`
unfoldable pub byte_length : String → ℕ
unfolding sum_of utf8_size
byte_length s = sum_of utf8_size (codes s)

-- `text.length`
unfoldable pub utf16_length : String → ℕ
unfolding sum_of utf16_size
utf16_length s = sum_of utf16_size (codes s)

-- A quotation mark, a backslash and five control codes take two bytes, other control codes six.
escaped_size : ℕ → ℕ
unfolding utf8_size
escaped_size c =
    if eqb c 34 || eqb c 92 || (leb 8 c && leb c 13 && (ltb c 11 || ltb 11 c))
    then 2
    else if ltb c 32
    then 6
    else utf8_size c

text_size : String → ℕ
unfolding sum_of escaped_size
text_size s = 2 + sum_of escaped_size (codes s)

-- The first argument bounds the digits.
digits : ℕ → ℕ → ℕ
digits zero n = 1
digits (suc fuel) n = let rest = digits fuel (n / 10) in if ltb n 10 then 1 else suc rest

is_defined : JsValue → Bool
is_defined undefined = false
is_defined _ = true

comma : Bool → ℕ
comma true = 0
comma false = 1

-- The bytes of `JSON.stringify(value)` in UTF-8. The flag tells that no entry stands before.
unfoldable mutual
  unfolding text_size digits is_defined comma

  pub json_size : JsValue → ℕ
  json_size undefined = 4
  json_size null = 4
  json_size (boolean true) = 4
  json_size (boolean false) = 5
  json_size (number n) = digits n n
  json_size (string s) = text_size s
  json_size (array vs) = 2 + items_size true vs
  json_size (object fs) = 2 + fields_size true fs

  items_size : Bool → Items → ℕ
  items_size first nil = 0
  items_size first (cons v vs) = comma first + (json_size v + items_size false vs)

  fields_size : Bool → Fields → ℕ
  fields_size first end = 0
  fields_size first (field k v fs) =
      let written = comma first + (text_size k + (1 + (json_size v + fields_size false fs))) in
      let skipped = fields_size first fs in if is_defined v then written else skipped
