-- ===== src/Uuid.antt =====
-- UUID_RE of src/modules/calls/calls.gateway.ts, src/modules/livekit/livekit.service.ts and
-- livekit.webhook.ts: 8-4-4-4-12 hexadecimal digits in either case, as lists of code points.
pub mod Extends
use zevra_server.Prelude.{
  ℕ, zero, suc, ◌+◌, String, Bool, true, false, ◌&&◌, ◌||◌, List, [], ◌∷◌, Option, none, some, leb,
  eqb, if◌then◌else◌,
}
use zevra_server.Js.{JsValue, string, codes, is_digit, is_upper}

abbrev pub is_hex_digit : ℕ → Bool
is_hex_digit c = is_digit c || leb b'a' c && leb c b'f' || leb b'A' c && leb c b'F'

-- `[0-9a-f]{n}` and one given character: what the text goes on with.
unfoldable pub after_hex : ℕ → List ℕ → Option (List ℕ)
after_hex zero cs = some cs
after_hex (suc n) [] = none
after_hex (suc n) (c ∷ cs) = let rest = after_hex n cs in if is_hex_digit c then rest else none

unfoldable pub after_char : ℕ → List ℕ → Option (List ℕ)
after_char c [] = none
after_char c (d ∷ cs) = if eqb d c then some cs else none

infixl 5 ◌>>=◌
abbrev pub ◌>>=◌ : Option (List ℕ) → (List ℕ → Option (List ℕ)) → Option (List ℕ)
none >>= f = none
some cs >>= f = f cs

unfoldable pub after_uuid : List ℕ → Option (List ℕ)
unfolding after_hex after_char
after_uuid cs = do
  a ← after_hex 8 cs
  b ← after_char b'-' a
  c ← after_hex 4 b
  d ← after_char b'-' c
  e ← after_hex 4 d
  f ← after_char b'-' e
  g ← after_hex 4 f
  h ← after_char b'-' g
  after_hex 12 h

unfoldable pub is_end : Option (List ℕ) → Bool
is_end (some []) = true
is_end _ = false

unfoldable pub is_uuid_text : String → Bool
unfolding is_end after_uuid
is_uuid_text s = is_end (after_uuid (codes s))

-- `isUuid`, with the text that the value is.
unfoldable pub uuid_of : JsValue → Option String
unfolding is_uuid_text
uuid_of (string s) = if is_uuid_text s then some s else none
uuid_of _ = none

-- `toLowerCase` of a letter of ASCII; no other character has one of a-f in lower case.
abbrev pub lower : ℕ → ℕ
lower c = if is_upper c then c + 32 else c

unfoldable pub same_codes : List ℕ → List ℕ → Bool
same_codes [] [] = true
same_codes (a ∷ xs) (b ∷ ys) = eqb (lower a) (lower b) && same_codes xs ys
same_codes _ _ = false

-- Whether two texts are one value of the type uuid of Postgres, which reads either case.
unfoldable pub same_uuid : String → String → Bool
unfolding same_codes
same_uuid s t = same_codes (codes s) (codes t)
