-- ===== src/Auth/Srp/Samples.antt =====
-- A small password hash and a small secret of a client.
use zevra_server.Prelude.{ℕ, ◌≡◌, refl, some, List, [], ◌∷◌, arith}
use zevra_server.Js.{codes, all}
use zevra_server.Auth.Srp.{
  compute_verifier, parse_hex, parse_client_ephemeral, mod_pow, group_g, group_n,
}
use zevra_server.Auth.Srp.Proof.{IsDigest}

-- A stand-in for SHA-256.
abbrev pub thirty_two : List ℕ → List ℕ
thirty_two m =
    1 ∷ 2 ∷ 3 ∷ 4 ∷ 5 ∷ 6 ∷ 7 ∷ 8 ∷ 9 ∷ 10 ∷ 11 ∷ 12 ∷ 13 ∷ 14 ∷ 15 ∷ 16 ∷ 17 ∷ 18 ∷ 19 ∷ 20 ∷ 21
    ∷ 22 ∷ 23 ∷ 24 ∷ 25 ∷ 26 ∷ 27 ∷ 28 ∷ 29 ∷ 30 ∷ 31 ∷ 32 ∷ []

pub is_digest : IsDigest thirty_two
is_digest m = omega arith

pub sample_verifier : parse_hex (codes "1000") ≡ compute_verifier 12
unfolding parse_hex compute_verifier mod_pow
sample_verifier = refl

pub sample_a : parse_client_ephemeral (codes "100000000000000") ≡ some (mod_pow group_g 56 group_n)
unfolding parse_client_ephemeral mod_pow all
sample_a = refl
