-- ===== src/Auth/SrpState.antt =====
-- src/modules/auth/srp-state.service.ts: the state of a login between its two requests, one key of
-- Redis under the username. `JSON.stringify` is that of its three fields, on texts without quotes,
-- backslashes and control characters; `JSON.parse` reads such texts, and any other is corrupt.
pub mod RoundTrip
use Prim.Native.String.{◌++◌}
use Prim.Native.Char.{code}
use zevra_server.Prelude.{ℕ, String, Bool, Option, none, some, ◌==◌, eqb, if◌then◌else◌}
use zevra_server.Js.{codes, object, end}
use zevra_server.Errors.Thrown.{Thrown, Result, ok, thrown, other, service_unavailable}
use zevra_server.Redis.{Redis, RedisKey, Link, up, down, failing, key}
use zevra_server.Redis.Values.{text, set_ex, del, live}
use zevra_server.Redis.Session.{Client, text_of}
use zevra_server.Auth.Srp.{parse_hex}
use zevra_server.Auth.Srp.HexText.{hex_text}

abbrev pub srp_state_ttl_seconds : ℕ
srp_state_ttl_seconds = 120

abbrev pub srp_key : String → RedisKey
srp_key username = key "srp" username ""

pub record SrpState : Type 0 where
  pub b : ℕ
  pub big_b : ℕ
  -- none when the username is not that of an active user
  pub user_id : Option String

user_json : Option String → String
user_json none = "null}"
user_json (some id) = "\"" ++ (id ++ "\"}")

-- `JSON.stringify` of the stored state.
unfoldable pub encode_state : SrpState → String
unfolding user_json
encode_state s =
    "{\"b\":\""
    ++ (hex_text s.b
        ++ ("\",\"B\":\"" ++ (hex_text s.big_b ++ ("\",\"userId\":" ++ user_json s.user_id))))

-- What follows a text at the start of another.
after_text : String → String → Option String
after_text String.[] s = some s
after_text (String.◌∷◌ p ps) String.[] = none
after_text (String.◌∷◌ p ps) (String.◌∷◌ c s) =
    let rest = after_text ps s in if eqb (code p) (code c) then rest else none

-- A text up to a quote, and what follows the quote.
until_quote : String → Option (String × String)
until_quote String.[] = none
until_quote (String.◌∷◌ c s) =
    let rest = until_quote s in
    if eqb (code c) 34
    then some (String.[], s)
    else elim rest [ none ↦ none | some (a, r) ↦ some (String.◌∷◌ c a, r) ]

quoted_after : String → String → Option (String × String)
unfolding after_text until_quote
quoted_after name s = elim (after_text name s) [ none ↦ none | some r ↦ until_quote r ]

state_of : String → String → Option String → SrpState
state_of b big_b user_id = record {
  b = parse_hex (codes b);
  big_b = parse_hex (codes big_b);
  user_id = user_id;
}

decode_user : String → String → String → Option SrpState
unfolding quoted_after state_of
decode_user b big_b s = elim (after_text ",\"userId\":null}" s) [
  | some r ↦ some (state_of b big_b none)
  | none ↦ elim (quoted_after ",\"userId\":\"" s) [
    | none ↦ none
    | some (id, r) ↦ if r == "}" then some (state_of b big_b (some id)) else none
  ]
]

unfoldable pub decode_state : String → Option SrpState
unfolding decode_user
decode_state s = elim (quoted_after "{\"b\":\"" s) [
  | none ↦ none
  | some (b, r) ↦ elim (quoted_after ",\"B\":\"" r) [
    | none ↦ none
    | some (big_b, u) ↦ decode_user b big_b u
  ]
]

decoded : Option String → Option SrpState
decoded none = none
decoded (some raw) = if raw == "" then none else decode_state raw

-- An error of the Redis client.
abbrev pub client_error : Thrown
client_error = other (object end)

abbrev pub unavailable : Thrown
unavailable = service_unavailable "Login is temporarily unavailable"

module _ (r : Redis) where
  unfoldable pub set_state : Client r → String → SrpState → ℕ → Client r × Result (Unit {0})
  set_state c username state now = elim c.link [
    | up ↦ (
      record c {
        store =
            r.run now (srp_key username) (set_ex srp_state_ttl_seconds (text (encode_state state)))
              c.store;
      },
      ok tt,
    )
    | down ↦ (c, thrown unavailable)
    | failing ↦ (c, thrown client_error)
  ]

  -- GETDEL.
  unfoldable pub consume : Client r → String → ℕ → Client r × Result (Option SrpState)
  unfolding decoded
  consume c username now =
      let raw = text_of (live now (r.entry c.store (srp_key username))) in
      elim c.link [
        | up ↦ (record c { store = r.run now (srp_key username) del c.store }, ok (decoded raw))
        | down ↦ (c, thrown unavailable)
        | failing ↦ (c, thrown client_error)
      ]
