-- ===== src/Auth/Srp/ModPow.antt =====
-- `modPow` computes the power, by square and multiply.
use native.Mathlib.Nat.{
  pow-zero, pow-suc, mod-mod, mod-lt, mod-eq_of_lt, add-mod_right, one-mul, mul-one,
}
use zevra_server.Prelude.{
  ℕ, zero, suc, ◌+◌, ◌*◌, ◌/◌, ◌%◌, ◌^◌, ◌≤◌, ◌<◌, ◌≡◌, sym, ap, ◌∙◌, inl, inr, arith, ltb, eqb,
  Bool-cases, if◌then◌else◌,
}
use zevra_server.Auth.Srp.{mod_pow_loop, mod_pow}
use zevra_server.Auth.Srp.Modular.{mod-mul_left, mod-mul_right, pow-mod, pow-add, mul-pow}

abbrev next : ℕ → ℕ → ℕ → ℕ → ℕ
next result base exponent modulus = if eqb (exponent % 2) 1 then result * base % modulus else result

square-pow : (b k m : ℕ) → (b * b % m) ^ k % m ≡ b ^ (k + k) % m
square-pow b k m = pow-mod (b * b) k m ∙ ap (λ (t : ℕ). t % m) (mul-pow b b k ∙ sym (pow-add b k k))

scaled : (r b k m : ℕ) → r * (b * b % m) ^ k % m ≡ r * b ^ (k + k) % m
scaled r b k m =
    sym (mod-mul_right r ((b * b % m) ^ k) m)
    ∙ ap (λ (t : ℕ). r * t % m) (square-pow b k m)
    ∙ mod-mul_right r (b ^ (k + k)) m

odd_round : (r b e k m : ℕ) → e ≡ suc (k + k) → r * b % m * (b * b % m) ^ k % m ≡ r * b ^ e % m
odd_round r b e k m h =
    rw (h, pow-suc)
      (mod-mul_left (r * b) ((b * b % m) ^ k) m
        ∙ scaled (r * b) b k m
        ∙ ap (λ (t : ℕ). t % m) (omega arith))

-- One round keeps `result * base ^ exponent` modulo the modulus.
round_lem : (r b e m : ℕ) → next r b e m * (b * b % m) ^ (e / 2) % m ≡ r * b ^ e % m
round_lem r b e m = elim (Bool-cases (eqb (e % 2) 1)) [
  | inl odd ↦ rw odd (odd_round r b e (e / 2) m (ground arith))
  | inr even ↦
      let half : e ≡ e / 2 + e / 2 = ground arith in
      rw even (scaled r b (e / 2) m ∙ ap (λ (t : ℕ). r * b ^ t % m) (sym half))
]

next-lt : (r b e m : ℕ) → r < m → next r b e m < m
next-lt r b e m h = elim (Bool-cases (eqb (e % 2) 1)) [
  | inl odd ↦ rw odd (mod-lt (r * b) (omega arith))
  | inr even ↦ rw even h
]

no_rounds : (r b e m : ℕ) → e ≡ 0 → r < m → r ≡ r * b ^ e % m
no_rounds r b e m z h = rw (z, pow-zero) (sym (ap (λ (t : ℕ). t % m) (mul-one r) ∙ mod-eq_of_lt h))

mod_pow_loop_lem : (fuel r b e m : ℕ) → e ≤ fuel → r < m → mod_pow_loop fuel r b e m ≡ r * b ^ e % m
unfolding mod_pow_loop
mod_pow_loop_lem zero r b e m h lt = no_rounds r b e m (omega arith) lt
mod_pow_loop_lem (suc fuel) r b e m h lt = elim (Bool-cases (ltb 0 e)) [
  | inl more ↦ rw more (
      mod_pow_loop_lem fuel (next r b e m) (b * b % m) (e / 2) m (ground arith) (next-lt r b e m lt)
      ∙ round_lem r b e m)
  | inr done ↦ rw done (no_rounds r b e m (ground arith) lt)
]

-- modPow is the power modulo every modulus above 1.
pub mod_pow_lem : (b e m : ℕ) → 1 < m → mod_pow b e m ≡ b ^ e % m
unfolding mod_pow
mod_pow_lem b e m h =
    mod_pow_loop_lem e 1 ((b % m + m) % m) e m (omega arith) h
    ∙ ap (λ (t : ℕ). t % m) (one-mul (((b % m + m) % m) ^ e))
    ∙ ap (λ (t : ℕ). t ^ e % m) (add-mod_right (b % m) m ∙ mod-mod b m)
    ∙ pow-mod b e m
