-- ===== src/Auth/Srp/HexText.antt =====
-- `n.toString(16)` as a text, and the number that it spells.
use Prim.Native.Char.{Char, code}
use mathlib.Core.List.{foldl}
use zevra_server.Prelude.{
  ℕ, zero, suc, ◌+◌, ◌-◌, ◌*◌, ◌/◌, ◌%◌, ◌<◌, String, Bool, true, not, ◌&&◌, List, ◌++◌, ◌≡◌, refl,
  ◌∙◌, ap, arith, ltb, leb, eqb, length, if◌then◌else◌, Bool-cases, inl, inr, ltb→lt,
}
use zevra_server.Js.{codes, all}
use zevra_server.Auth.Srp.{parse_hex, hex_value, zeros}

hex_digit : ℕ → Char
hex_digit zero = "0"
hex_digit (suc zero) = "1"
hex_digit (suc (suc zero)) = "2"
hex_digit (suc (suc (suc zero))) = "3"
hex_digit (suc (suc (suc (suc zero)))) = "4"
hex_digit (suc (suc (suc (suc (suc zero))))) = "5"
hex_digit (suc (suc (suc (suc (suc (suc zero)))))) = "6"
hex_digit (suc (suc (suc (suc (suc (suc (suc zero))))))) = "7"
hex_digit (suc (suc (suc (suc (suc (suc (suc (suc zero)))))))) = "8"
hex_digit (suc (suc (suc (suc (suc (suc (suc (suc (suc zero))))))))) = "9"
hex_digit (suc (suc (suc (suc (suc (suc (suc (suc (suc (suc zero)))))))))) = "a"
hex_digit (suc (suc (suc (suc (suc (suc (suc (suc (suc (suc (suc zero))))))))))) = "b"
hex_digit (suc (suc (suc (suc (suc (suc (suc (suc (suc (suc (suc (suc zero)))))))))))) = "c"
hex_digit (suc (suc (suc (suc (suc (suc (suc (suc (suc (suc (suc (suc (suc zero))))))))))))) = "d"
hex_digit (suc (suc (suc (suc (suc (suc (suc (suc (suc (suc (suc (suc (suc (suc zero)))))))))))))) =
    "e"
hex_digit
      (suc (suc (suc (suc (suc (suc (suc (suc (suc (suc (suc (suc (suc (suc (suc d))))))))))))))) =
    "f"

-- The digits of `n` before a text; the first argument bounds their number.
hex_before : ℕ → ℕ → String → String
unfolding hex_digit
hex_before zero n text = text
hex_before (suc fuel) n text =
    let rest = hex_before fuel (n / 16) (String.◌∷◌ (hex_digit (n % 16)) text) in
    if ltb n 16 then String.◌∷◌ (hex_digit n) text else rest

unfoldable pub hex_text : ℕ → String
unfolding hex_before
hex_text n = hex_before (suc n) n String.[]

-- `bigintToHex`, with at least two digits.
unfoldable pub bigint_to_hex : ℕ → List ℕ
unfolding hex_text zeros
bigint_to_hex n = let hex = codes (hex_text n) in zeros (2 - length hex) ++ hex

hex_value-hex_digit : (d : ℕ) → d < 16 → hex_value (code (hex_digit d)) ≡ d
unfolding hex_value hex_digit
hex_value-hex_digit zero h = refl
hex_value-hex_digit (suc zero) h = refl
hex_value-hex_digit (suc (suc zero)) h = refl
hex_value-hex_digit (suc (suc (suc zero))) h = refl
hex_value-hex_digit (suc (suc (suc (suc zero)))) h = refl
hex_value-hex_digit (suc (suc (suc (suc (suc zero))))) h = refl
hex_value-hex_digit (suc (suc (suc (suc (suc (suc zero)))))) h = refl
hex_value-hex_digit (suc (suc (suc (suc (suc (suc (suc zero))))))) h = refl
hex_value-hex_digit (suc (suc (suc (suc (suc (suc (suc (suc zero)))))))) h = refl
hex_value-hex_digit (suc (suc (suc (suc (suc (suc (suc (suc (suc zero))))))))) h = refl
hex_value-hex_digit (suc (suc (suc (suc (suc (suc (suc (suc (suc (suc zero)))))))))) h = refl
hex_value-hex_digit (suc (suc (suc (suc (suc (suc (suc (suc (suc (suc (suc zero))))))))))) h = refl
hex_value-hex_digit (suc (suc (suc (suc (suc (suc (suc (suc (suc (suc (suc (suc zero)))))))))))) h =
    refl
hex_value-hex_digit
      (suc (suc (suc (suc (suc (suc (suc (suc (suc (suc (suc (suc (suc zero))))))))))))) h =
    refl
hex_value-hex_digit
      (suc (suc (suc (suc (suc (suc (suc (suc (suc (suc (suc (suc (suc (suc zero)))))))))))))) h =
    refl
hex_value-hex_digit
      (suc (suc (suc (suc (suc (suc (suc (suc (suc (suc (suc (suc (suc (suc (suc zero)))))))))))))))
      h =
    refl
hex_value-hex_digit
      (suc
        (suc (suc (suc (suc (suc (suc (suc (suc (suc (suc (suc (suc (suc (suc (suc d))))))))))))))))
      h =
    absurd (omega arith)

-- Neither a quote, a backslash nor a control character.
abbrev pub is_plain : ℕ → Bool
is_plain c = not (eqb c 34) && (not (eqb c 92) && leb 32 c)

hex_digit-IsPlain : (d : ℕ) → is_plain (code (hex_digit d)) ≡ true
unfolding hex_digit
hex_digit-IsPlain zero = refl
hex_digit-IsPlain (suc zero) = refl
hex_digit-IsPlain (suc (suc zero)) = refl
hex_digit-IsPlain (suc (suc (suc zero))) = refl
hex_digit-IsPlain (suc (suc (suc (suc zero)))) = refl
hex_digit-IsPlain (suc (suc (suc (suc (suc zero))))) = refl
hex_digit-IsPlain (suc (suc (suc (suc (suc (suc zero)))))) = refl
hex_digit-IsPlain (suc (suc (suc (suc (suc (suc (suc zero))))))) = refl
hex_digit-IsPlain (suc (suc (suc (suc (suc (suc (suc (suc zero)))))))) = refl
hex_digit-IsPlain (suc (suc (suc (suc (suc (suc (suc (suc (suc zero))))))))) = refl
hex_digit-IsPlain (suc (suc (suc (suc (suc (suc (suc (suc (suc (suc zero)))))))))) = refl
hex_digit-IsPlain (suc (suc (suc (suc (suc (suc (suc (suc (suc (suc (suc zero))))))))))) = refl
hex_digit-IsPlain (suc (suc (suc (suc (suc (suc (suc (suc (suc (suc (suc (suc zero)))))))))))) =
    refl
hex_digit-IsPlain
      (suc (suc (suc (suc (suc (suc (suc (suc (suc (suc (suc (suc (suc zero))))))))))))) =
    refl
hex_digit-IsPlain
      (suc (suc (suc (suc (suc (suc (suc (suc (suc (suc (suc (suc (suc (suc zero)))))))))))))) =
    refl
hex_digit-IsPlain
      (suc (suc (suc (suc (suc (suc (suc (suc (suc (suc (suc (suc (suc (suc (suc d))))))))))))))) =
    refl

abbrev step : ℕ → ℕ → ℕ
step n c = n * 16 + hex_value c

step-hex_digit : (n d : ℕ) → d < 16 → step n (code (hex_digit d)) ≡ n * 16 + d
step-hex_digit n d h = ap (λ k. n * 16 + k) (hex_value-hex_digit d h)

scan-hex_before :
    (fuel n : ℕ) (s : String)
    → n < fuel
    → foldl step 0 (codes (hex_before fuel n s)) ≡ foldl step n (codes s)
unfolding hex_before
scan-hex_before zero n s h = absurd (omega arith)
scan-hex_before (suc fuel) n s h = elim (Bool-cases (ltb n 16)) [
  | inl small ↦ rw small (
      ap (λ k. foldl step k (codes s)) (step-hex_digit 0 n (ltb→lt n 16 small))
      ∙ ap (λ k. foldl step k (codes s)) (omega arith))
  | inr large ↦ rw large (
      scan-hex_before fuel (n / 16) _ (ground arith)
      ∙ ap (λ k. foldl step k (codes s)) (step-hex_digit (n / 16) (n % 16) (omega arith))
      ∙ ap (λ k. foldl step k (codes s)) (omega arith))
]

pub parse_hex-hex_text : (n : ℕ) → parse_hex (codes (hex_text n)) ≡ n
unfolding parse_hex hex_text
parse_hex-hex_text n = scan-hex_before (suc n) n String.[] (omega arith)

skip_zeros : (k : ℕ) (l : List ℕ) → foldl step 0 (zeros k ++ l) ≡ foldl step 0 l
unfolding zeros hex_value
skip_zeros zero l = refl
skip_zeros (suc k) l = skip_zeros k l

-- The client reads back the number that was sent.
pub parse_hex-bigint_to_hex : (n : ℕ) → parse_hex (bigint_to_hex n) ≡ n
unfolding parse_hex bigint_to_hex
parse_hex-bigint_to_hex n =
    skip_zeros (2 - length (codes (hex_text n))) (codes (hex_text n)) ∙ parse_hex-hex_text n

plain_before :
    (fuel n : ℕ) (s : String)
    → all is_plain (codes s) ≡ true
    → all is_plain (codes (hex_before fuel n s)) ≡ true
unfolding hex_before all
plain_before zero n s h = h
plain_before (suc fuel) n s h = elim (Bool-cases (ltb n 16)) [
  | inl small ↦ rw small (rw (hex_digit-IsPlain n) h)
  | inr large ↦ rw large (plain_before fuel (n / 16) _ (rw (hex_digit-IsPlain (n % 16)) h))
]

pub all-hex_text : (n : ℕ) → all is_plain (codes (hex_text n)) ≡ true
unfolding hex_text all
all-hex_text n = plain_before (suc n) n String.[] refl
