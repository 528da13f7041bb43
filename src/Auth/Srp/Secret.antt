-- ===== src/Auth/Srp/Secret.antt =====
-- The server and an honest client compute the same secret.
use zevra_server.Prelude.{ℕ, ◌+◌, ◌-◌, ◌*◌, ◌%◌, ◌/◌, ◌^◌, ◌<◌, ◌≡◌, sym, ap, ◌∙◌, arith, List}
use native.Mathlib.Nat.{mod-lt, mod-add-mod, mul_comm, div-add-mod, add-mul-mod_self_right}
use zevra_server.Auth.Srp.{
  mod_pow, group_g, group_n, generate_server_ephemeral, compute_verifier, server_secret, multiplier,
  scramble,
}
use zevra_server.Auth.Srp.Modular.{mod-mul_left, mod-mul_right, pow-mod, pow-add, pow-mul}
use zevra_server.Auth.Srp.ModPow.{mod_pow_lem}

-- The base of the client: `(((B - k * g ^ x) % N) + N) % N`, over the natural numbers.
abbrev pub client_base : ℕ → ℕ → ℕ
client_base big_b kv = (big_b + (group_n - kv % group_n)) % group_n

unmask : (x y n : ℕ) → 0 < n → ((x + y) % n + (n - x % n)) % n ≡ y % n
unmask x y n h =
    mod-add-mod (x + y) n (n - x % n)
    ∙ ap (λ (t : ℕ). t % n) (omega (arith, div-add-mod x n, mod-lt x h))
    ∙ add-mul-mod_self_right y (x / n + 1) n

product-mod : (g a u x n : ℕ) → (g ^ a % n * ((g ^ x % n) ^ u % n)) % n ≡ g ^ (a + u * x) % n
product-mod g a u x n =
    mod-mul_left (g ^ a) ((g ^ x % n) ^ u % n) n
    ∙ ap (λ (t : ℕ). g ^ a * t % n) (pow-mod (g ^ x) u n)
    ∙ mod-mul_right (g ^ a) ((g ^ x) ^ u) n
    ∙ ap (λ (t : ℕ). g ^ a * t % n) (sym (pow-mul g x u))
    ∙ ap (λ (t : ℕ). t % n) (sym (pow-add g a (x * u)))
    ∙ ap (λ (t : ℕ). g ^ (a + t) % n) (mul_comm x u)

server_power :
    (g a u x b n : ℕ)
    → 1 < n
    → mod_pow (mod_pow g a n * mod_pow (mod_pow g x n) u n) b n ≡ g ^ ((a + u * x) * b) % n
server_power g a u x b n h = simp mod_pow_lem (
    sym (pow-mod (g ^ a % n * ((g ^ x % n) ^ u % n)) b n)
    ∙ ap (λ (t : ℕ). t ^ b % n) (product-mod g a u x n)
    ∙ pow-mod (g ^ (a + u * x)) b n
    ∙ ap (λ (t : ℕ). t % n) (sym (pow-mul g (a + u * x) b)))

client_power :
    (g k x b e n : ℕ)
    → 1 < n
    → mod_pow (((k * mod_pow g x n + mod_pow g b n) % n + (n - k * mod_pow g x n % n)) % n) e n
      ≡ g ^ (b * e) % n
client_power g k x b e n h =
    mod_pow_lem _ e n h
    ∙ ap (λ (t : ℕ). t ^ e % n) (unmask (k * mod_pow g x n) (mod_pow g b n) n (omega arith))
    ∙ pow-mod (mod_pow g b n) e n
    ∙ ap (λ (t : ℕ). t ^ e % n) (mod_pow_lem g b n h)
    ∙ pow-mod (g ^ b) e n
    ∙ ap (λ (t : ℕ). t % n) (sym (pow-mul g b e))

module _ (sha256 : List ℕ → List ℕ) where
  -- The secret of a client that knows `x`, by the formula of SRP-6a.
  unfoldable pub client_secret : ℕ → ℕ → ℕ → ℕ
  client_secret x a big_b =
      mod_pow (client_base big_b (multiplier sha256 * mod_pow group_g x group_n))
        (a + scramble sha256 (mod_pow group_g a group_n) big_b * x) group_n

  -- A client that raises its side by the formula of SRP-6a from the same password hash, and the
  -- server from its verifier and the value B that it sent, get one secret, whatever SHA-256
  -- computes.
  pub server_secret-client_secret :
      (x a secret : ℕ)
      → let big_b = (generate_server_ephemeral sha256 (compute_verifier x) secret).big_b in
        server_secret sha256 (mod_pow group_g a group_n) big_b (compute_verifier x) secret
        ≡ client_secret x a big_b
  unfolding server_secret client_secret generate_server_ephemeral compute_verifier
  server_secret-client_secret x a secret =
      server_power group_g a _ x secret group_n (omega arith)
      ∙ ap (λ (t : ℕ). group_g ^ t % group_n) (mul_comm _ secret)
      ∙ sym (client_power group_g (multiplier sha256) x secret _ group_n (omega arith))
