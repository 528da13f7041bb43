-- ===== src/Auth/Srp/Modular.antt =====
-- Laws of `%` and `^` that modular exponentiation rests on.
use native.Mathlib.Nat.{
  pow-zero, pow-suc, add-mul-mod_self_right, div-add-mod, zero-add, one-mul, suc-add, mul-zero,
  mul-suc,
}
use zevra_server.Prelude.{ℕ, zero, suc, ◌+◌, ◌*◌, ◌/◌, ◌%◌, ◌^◌, ◌≡◌, sym, ap, ◌∙◌, arith}

mod-split : (a b m : ℕ) → a * b ≡ a % m * b + a / m * b * m
mod-split a b m = omega (arith, ap (λ (t : ℕ). t * b) (div-add-mod a m))

pub mod-mul_left : (a b m : ℕ) → a % m * b % m ≡ a * b % m
mod-mul_left a b m = sym (ap (λ (t : ℕ). t % m) (mod-split a b m) ∙ add-mul-mod_self_right _ _ _)

pub mod-mul_right : (a b m : ℕ) → a * (b % m) % m ≡ a * b % m
mod-mul_right a b m = grind (arith, mod-mul_left b a m)

pub pow-mod : (a n m : ℕ) → (a % m) ^ n % m ≡ a ^ n % m
pow-mod a zero m = simp pow-zero
pow-mod a (suc n) m =
    simp (pow-suc, mod-mul_right)
      (sym (mod-mul_left ((a % m) ^ n) a m)
        ∙ ap (λ (t : ℕ). t * a % m) (pow-mod a n m)
        ∙ mod-mul_left (a ^ n) a m)

pub pow-add : (a n k : ℕ) → a ^ (n + k) ≡ a ^ n * a ^ k
pow-add a zero k = simp (pow-zero, zero-add, one-mul)
pow-add a (suc n) k = simp (suc-add, pow-suc) (omega (arith, ap (λ (t : ℕ). t * a) (pow-add a n k)))

pub pow-mul : (a n k : ℕ) → a ^ (n * k) ≡ (a ^ n) ^ k
pow-mul a n zero = simp (mul-zero, pow-zero)
pow-mul a n (suc k) =
    simp (mul-suc, pow-suc) (pow-add a (n * k) n ∙ ap (λ (t : ℕ). t * a ^ n) (pow-mul a n k))

pub mul-pow : (a b n : ℕ) → (a * b) ^ n ≡ a ^ n * b ^ n
mul-pow a b zero = simp pow-zero
mul-pow a b (suc n) = simp pow-suc (omega (arith, ap (λ (t : ℕ). t * (a * b)) (mul-pow a b n)))
