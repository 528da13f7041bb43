-- ===== src/Auth/SrpState/RoundTrip.antt =====
-- The state of a login is read back as it was stored, and once.
use Prim.Native.String.{◌++◌}
use Prim.Native.Char.{Char, code}
use package.text.Mathlib.TextLemmas.{nil-append, cons-append, append-nil}
use zevra_server.Prelude.{
  ℕ, ◌+◌, String, Bool, true, false, List, ◌∷◌, Option, none, some, ◌≡◌, refl, ◌∙◌, ap, sym, arith,
  eqb, leb, ◌==◌, eq_iff, false≢true, Bool-cases, inl, inr, if◌then◌else◌,
}
use zevra_server.Js.{codes, all}
use zevra_server.Auth.Srp.HexText.{hex_text, is_plain, all-hex_text, parse_hex-hex_text}
use zevra_server.Errors.Thrown.{ok}
use zevra_server.Redis.{Redis, up}
use zevra_server.Redis.Values.{text, set_ex, effect, live, is_past}
use zevra_server.Redis.Laws.{entry-run_self}
use zevra_server.Redis.Session.{Client, text_of}
use zevra_server.Auth.SrpState.{
  srp_key, set_state, consume, decoded, SrpState, user_json, encode_state, after_text, until_quote,
  quoted_after, state_of, decode_user, decode_state,
}

-- A common start of both texts does not matter.
after_text-both : (p q s : String) → after_text (p ++ q) (p ++ s) ≡ after_text q s
unfolding after_text
after_text-both String.[] q s = rw (nil-append q, nil-append s) refl
after_text-both (String.◌∷◌ c p) q s =
    rw (cons-append c p q, cons-append c p s)
      (same (after_text (p ++ q) (p ++ s)) ∙ after_text-both p q s)
  where
    same : (o : Option String) → (if eqb (code c) (code c) then o else none) ≡ o
    same o = ground arith

after_text-append : (p s : String) → after_text p (p ++ s) ≡ some s
unfolding after_text
after_text-append p s =
    ap (λ q. after_text q (p ++ s)) (sym (append-nil p)) ∙ after_text-both p String.[] s

plain_head :
    (c : ℕ) (l : List ℕ)
    → all is_plain (c ∷ l) ≡ true
    → (eqb c 34 ≡ false) × (all is_plain l ≡ true)
unfolding all
plain_head c l h = (ground arith, ground arith)

until_quote-append :
    (a s : String)
    → all is_plain (codes a) ≡ true
    → until_quote (a ++ (String.◌∷◌ "\"" s)) ≡ some (a, s)
unfolding until_quote
until_quote-append String.[] s h = rw (nil-append (String.◌∷◌ "\"" s)) refl
until_quote-append (String.◌∷◌ c a) s h =
    let (head, tail) = plain_head (code c) (codes a) h in
    rw (cons-append c a (String.◌∷◌ "\"" s)) (rw head (rw (until_quote-append a s tail) refl))

quoted_after-append :
    (name a s : String)
    → all is_plain (codes a) ≡ true
    → quoted_after name (name ++ (a ++ (String.◌∷◌ "\"" s))) ≡ some (a, s)
unfolding quoted_after
quoted_after-append name a s h =
    rw (after_text-append name (a ++ (String.◌∷◌ "\"" s)), quoted_after) (until_quote-append a s h)

-- The same when the text goes on with a quote and another text.
quoted_after-part :
    (name a q s : String)
    → all is_plain (codes a) ≡ true
    → quoted_after name (name ++ (a ++ (String.◌∷◌ "\"" q ++ s))) ≡ some (a, q ++ s)
quoted_after-part name a q s h =
    ap (λ x. quoted_after name (name ++ (a ++ x))) (cons-append "\"" q s)
    ∙ quoted_after-append name a (q ++ s) h

-- The id of the user, when there is one, needs no escapes.
abbrev pub IsPlainId : Option String → Type 0
IsPlainId none = Unit
IsPlainId (some id) = all is_plain (codes id) ≡ true

decode_user-json :
    (b big_b : String) (o : Option String)
    → IsPlainId o
    → decode_user b big_b (",\"userId\":" ++ user_json o) ≡ some (state_of b big_b o)
unfolding decode_user user_json after_text
decode_user-json b big_b none h = refl
decode_user-json b big_b (some id) h = rw (not_null, decode_user) (rw named refl)
  where
    not_null : after_text ",\"userId\":null}" (",\"userId\":" ++ ("\"" ++ (id ++ "\"}"))) ≡ none
    not_null =
        after_text-both ",\"userId\":" "null}" ("\"" ++ (id ++ "\"}"))
        ∙ rw (cons-append "\"" String.[] (id ++ "\"}")) refl

    named :
        quoted_after ",\"userId\":\"" (",\"userId\":" ++ ("\"" ++ (id ++ "\"}"))) ≡ some (id, "}")
    named =
        rw
          (
            after_text-both ",\"userId\":" "\"" ("\"" ++ (id ++ "\"}"))
                ∙ after_text-append "\"" (id ++ "\"}"),
            quoted_after,
          )
          (until_quote-append id "}" h)

-- What is read is what was stored.
pub decode_state-encode_state :
    (s : SrpState) → IsPlainId s.user_id → decode_state (encode_state s) ≡ some s
unfolding decode_state encode_state state_of
decode_state-encode_state s h =
    rw
      (
        quoted_after-part "{\"b\":\"" (hex_text s.b) ",\"B\":\""
            (hex_text s.big_b ++ ("\",\"userId\":" ++ user_json s.user_id)) (all-hex_text s.b),
        decode_state,
      )
      (rw
        (quoted_after-part ",\"B\":\"" (hex_text s.big_b) ",\"userId\":" (user_json s.user_id)
          (all-hex_text s.big_b))
        (decode_user-json (hex_text s.b) (hex_text s.big_b) s.user_id h
          ∙ rw (parse_hex-hex_text s.b, parse_hex-hex_text s.big_b) refl))

is_empty : String → Bool
is_empty String.[] = true
is_empty (String.◌∷◌ c s) = false

cons_full : (c : Char) (s : String) → (String.◌∷◌ c s == "") ≡ false
unfolding is_empty
cons_full c s = elim (Bool-cases (String.◌∷◌ c s == "")) [
  | inl e ↦ absurd (false≢true (ap is_empty ((eq_iff (String.◌∷◌ c s) "").0 e)))
  | inr e ↦ e
]

encode_state-full : (s : SrpState) → (encode_state s == "") ≡ false
unfolding encode_state
encode_state-full s =
    rw
      (cons-append "{" "\"b\":\"" (
        hex_text s.b
        ++ ("\",\"B\":\"" ++ (hex_text s.big_b ++ ("\",\"userId\":" ++ user_json s.user_id)))))
      (cons_full "{" _)

abbrev pub answering : (r : Redis) → r.State → Client r
answering r s = record { link = up; store = s }

module _ (r : Redis) (username : String) (now t : ℕ) where
  consume-as :
      (s : r.State) (o : Option String)
      → text_of (live t (r.entry s (srp_key username))) ≡ o
      → (consume r (answering r s) username t).1 ≡ ok (decoded o)
  unfolding consume
  consume-as s o h = rw h refl

  -- Within its time, the state is consumed as it was set.
  pub consume-set_state :
      (s : r.State) (st : SrpState)
      → IsPlainId st.user_id
      → leb (now + 120000) t ≡ false
      → (consume r (set_state r (answering r s) username st now).0 username t).1 ≡ ok (some st)
  unfolding set_state effect live text_of is_past decoded
  consume-set_state s st plain early =
      consume-as (r.run now (srp_key username) (set_ex 120 (text (encode_state st))) s)
        (some (encode_state st)) stored
      ∙ ap ok (rw (encode_state-full st, decoded) (decode_state-encode_state st plain))
    where
      stored :
          text_of (
            live t (
              r.entry
                (r.run now (srp_key username) (set_ex 120 (text (encode_state st))) s)
                (srp_key username)))
          ≡ some (encode_state st)
      stored =
          rw (entry-run_self r now (srp_key username) (set_ex 120 (text (encode_state st))) s)
            (rw early refl)
