-- ===== src/Js/Decimal.antt =====
-- `String(n)` and `Number(text)` on the natural numbers and their decimal texts.
use Prim.Native.Char.{Char}
use zevra_server.Prelude.{
  ℕ, zero, suc, ◌+◌, ◌-◌, ◌*◌, ◌/◌, ◌%◌, ◌<◌, String, List, [], ◌∷◌, Option, none, some, ◌≡◌, refl,
  arith, ltb, if◌then◌else◌, Bool-cases, inl, inr, ltb→lt, ap, ◌∙◌,
}
use zevra_server.Js.{codes, is_digit}

digit : ℕ → Char
digit zero = "0"
digit (suc zero) = "1"
digit (suc (suc zero)) = "2"
digit (suc (suc (suc zero))) = "3"
digit (suc (suc (suc (suc zero)))) = "4"
digit (suc (suc (suc (suc (suc zero))))) = "5"
digit (suc (suc (suc (suc (suc (suc zero)))))) = "6"
digit (suc (suc (suc (suc (suc (suc (suc zero))))))) = "7"
digit (suc (suc (suc (suc (suc (suc (suc (suc zero)))))))) = "8"
digit (suc (suc (suc (suc (suc (suc (suc (suc (suc d))))))))) = "9"

-- The digits of `n` before a text; the first argument bounds their number.
digits_before : ℕ → ℕ → String → String
unfolding digit
digits_before zero n text = text
digits_before (suc fuel) n text =
    let rest = digits_before fuel (n / 10) (String.◌∷◌ (digit (n % 10)) text) in
    if ltb n 10 then String.◌∷◌ (digit n) text else rest

-- `String(n)`
unfoldable pub decimal : ℕ → String
unfolding digits_before
decimal n = digits_before (suc n) n String.[]

-- The number that the digits spell after those of `acc`; none is NaN.
scan : List ℕ → ℕ → Option ℕ
scan [] acc = some acc
scan (c ∷ cs) acc = let rest = scan cs (acc * 10 + (c - b'0')) in if is_digit c then rest else none

-- `Number(text)` on texts without signs, points, exponents, spaces and prefixes.
unfoldable pub number_of : String → Option ℕ
unfolding scan
number_of text = scan (codes text) 0

scan-digit :
    (d : ℕ) (s : String) (acc : ℕ)
    → d < 10
    → scan (codes (String.◌∷◌ (digit d) s)) acc ≡ scan (codes s) (acc * 10 + d)
unfolding scan digit
scan-digit zero s acc h = refl
scan-digit (suc zero) s acc h = refl
scan-digit (suc (suc zero)) s acc h = refl
scan-digit (suc (suc (suc zero))) s acc h = refl
scan-digit (suc (suc (suc (suc zero)))) s acc h = refl
scan-digit (suc (suc (suc (suc (suc zero))))) s acc h = refl
scan-digit (suc (suc (suc (suc (suc (suc zero)))))) s acc h = refl
scan-digit (suc (suc (suc (suc (suc (suc (suc zero))))))) s acc h = refl
scan-digit (suc (suc (suc (suc (suc (suc (suc (suc zero)))))))) s acc h = refl
scan-digit (suc (suc (suc (suc (suc (suc (suc (suc (suc zero))))))))) s acc h = refl
scan-digit (suc (suc (suc (suc (suc (suc (suc (suc (suc (suc d)))))))))) s acc h =
    absurd (omega arith)

scan-digits_before :
    (fuel n : ℕ) (s : String)
    → n < fuel
    → scan (codes (digits_before fuel n s)) 0 ≡ scan (codes s) n
unfolding digits_before
scan-digits_before zero n s h = absurd (omega arith)
scan-digits_before (suc fuel) n s h = elim (Bool-cases (ltb n 10)) [
  | inl small ↦ rw small (scan-digit n s 0 (ltb→lt n 10 small) ∙ ap (scan (codes s)) (omega arith))
  | inr large ↦ rw large (
      scan-digits_before fuel (n / 10) _ (ground arith)
      ∙ scan-digit (n % 10) s (n / 10) (omega arith)
      ∙ ap (scan (codes s)) (omega arith))
]

pub number_of-decimal : (n : ℕ) → number_of (decimal n) ≡ some n
unfolding number_of decimal
number_of-decimal n = scan-digits_before (suc n) n String.[] (omega arith)
