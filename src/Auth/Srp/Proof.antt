-- ===== src/Auth/Srp/Proof.antt =====
-- Which client proofs `verifyClientProof` accepts, and what it answers.
use zevra_server.Prelude.{
  ℕ, ◌%◌, ◌≡◌, ◌≢◌, ap, sym, ◌∙◌, List, ◌++◌, true, false, arith, length, ◌↔◌, some,
}
use zevra_server.Auth.Srp.{
  parse_client_ephemeral, to_hex, from_hex, bigint_to_buffer, ProofParams, ProofResult,
  verify_client_proof, check_proof, expected_m1, provided, session_key, server_secret, group_n,
  group_g, mod_pow, compute_verifier, generate_server_ephemeral, rejected,
}
use zevra_server.Auth.Srp.Hex.{IsBytes, length-to_hex, all-to_hex, from_hex-to_hex, same_bytes_iff}
use zevra_server.Auth.Srp.Secret.{client_secret, server_secret-client_secret}

-- A value of A that is read is no multiple of N.
pub parse_client_ephemeral-nonzero :
    (hex : List ℕ) (n : ℕ) → parse_client_ephemeral hex ≡ some n → n % group_n ≢ 0
unfolding parse_client_ephemeral
parse_client_ephemeral-nonzero hex n h = ground arith

module _ (sha256 : List ℕ → List ℕ) where
  abbrev pub key_of : ProofParams → List ℕ
  key_of p = session_key sha256 (server_secret sha256 p.big_a p.big_b p.v p.b)

  abbrev pub expected : ProofParams → List ℕ
  expected p = expected_m1 sha256 p.big_a p.big_b p.srp_salt (key_of p)

  check_proof-valid_iff :
      (p : ProofParams) (k : List ℕ)
      → ((check_proof sha256 p k).valid ≡ true)
        ↔ (provided sha256 p.m1 ≡ expected_m1 sha256 p.big_a p.big_b p.srp_salt k)
  unfolding check_proof
  check_proof-valid_iff p k = (
    λ h. ground (
      arith,
      same_bytes_iff (provided sha256 p.m1) (expected_m1 sha256 p.big_a p.big_b p.srp_salt k),
    ),
    λ h. ground (
      arith,
      same_bytes_iff (provided sha256 p.m1) (expected_m1 sha256 p.big_a p.big_b p.srp_salt k),
    ),
  )

  check_proof-rejects :
      (p : ProofParams) (k : List ℕ)
      → (check_proof sha256 p k).valid ≡ false
      → check_proof sha256 p k ≡ rejected
  unfolding check_proof
  check_proof-rejects p k h = ground arith

  -- A proof is accepted exactly when A is not a multiple of N and M1 decodes to the hash that the
  -- server expects for its own secret.
  pub verify_client_proof-valid_iff :
      (p : ProofParams)
      → ((verify_client_proof sha256 p).valid ≡ true)
        ↔ ((p.big_a % group_n ≢ 0) × (provided sha256 p.m1 ≡ expected p))
  unfolding verify_client_proof
  verify_client_proof-valid_iff p = (
    λ h. (ground arith, (check_proof-valid_iff p (key_of p)).0 (ground arith)),
    λ h. ground (arith, check_proof-valid_iff p (key_of p)),
  )

  -- A rejected proof yields neither the server's proof nor the session key.
  verify_client_proof-rejects :
      (p : ProofParams)
      → (verify_client_proof sha256 p).valid ≡ false
      → verify_client_proof sha256 p ≡ rejected
  unfolding verify_client_proof
  verify_client_proof-rejects p h = ground (arith, check_proof-rejects p (key_of p))

  abbrev pub accepted : ProofParams → ProofResult
  accepted p = record {
    valid = true;
    m2 = to_hex (sha256 (bigint_to_buffer p.big_a ++ (from_hex p.m1 ++ key_of p)));
    k = key_of p;
  }

  check_proof-accepts :
      (p : ProofParams)
      → (check_proof sha256 p (key_of p)).valid ≡ true
      → check_proof sha256 p (key_of p) ≡ accepted p
  unfolding check_proof
  check_proof-accepts p h = ground arith

  -- An accepted proof is answered by the server's proof over A, M1 and the key.
  pub verify_client_proof-accepts :
      (p : ProofParams)
      → (verify_client_proof sha256 p).valid ≡ true
      → verify_client_proof sha256 p ≡ accepted p
  unfolding verify_client_proof
  verify_client_proof-accepts p h = ground (arith, check_proof-accepts p)

  -- SHA-256 yields 32 bytes.
  abbrev pub IsDigest : Type 0
  IsDigest = (m : List ℕ) → (length (sha256 m) ≡ 32) × IsBytes (sha256 m)

  provided-to_hex : IsDigest → (m : List ℕ) → provided sha256 (to_hex (sha256 m)) ≡ sha256 m
  unfolding provided
  provided-to_hex d m =
      ground
        (arith, length-to_hex (sha256 m), all-to_hex (sha256 m), from_hex-to_hex (sha256 m), d m)

  provided-expected :
      IsDigest
      → (big_a big_b : ℕ) (srp_salt k : List ℕ)
      → provided sha256 (to_hex (expected_m1 sha256 big_a big_b srp_salt k))
        ≡ expected_m1 sha256 big_a big_b srp_salt k
  unfolding expected_m1
  provided-expected d big_a big_b srp_salt k = provided-to_hex d _

  -- What an honest client sends for the password hash `x` and its secret `a`.
  unfoldable pub honest_params : ℕ → ℕ → ℕ → List ℕ → List ℕ → ProofParams
  honest_params x a secret srp_salt username =
      let e = generate_server_ephemeral sha256 (compute_verifier x) secret in
      let big_a = mod_pow group_g a group_n in
      record {
        big_a = big_a;
        m1 = to_hex (
            expected_m1 sha256 big_a e.big_b srp_salt
              (session_key sha256 (client_secret sha256 x a e.big_b)));
        b = e.b;
        big_b = e.big_b;
        v = compute_verifier x;
        srp_salt = srp_salt;
        username = username;
      }

  -- A client that knows the password hash behind the verifier is accepted, whatever the secrets
  -- are, unless its A is a multiple of N; SHA-256 is any function with 32-byte results.
  pub verify_client_proof-honest :
      (x a secret : ℕ) (srp_salt username : List ℕ)
      → IsDigest
      → mod_pow group_g a group_n % group_n ≢ 0
      → (verify_client_proof sha256 (honest_params x a secret srp_salt username)).valid ≡ true
  unfolding honest_params generate_server_ephemeral
  verify_client_proof-honest x a secret srp_salt username d nonzero =
      (verify_client_proof-valid_iff _).1 (
        nonzero,
        provided-expected d _ _ srp_salt _
            ∙ ap
                (λ s.
                  expected_m1 sha256 (mod_pow group_g a group_n)
                    (generate_server_ephemeral sha256 (compute_verifier x) secret).big_b srp_salt
                    (session_key sha256 s))
                (sym (server_secret-client_secret sha256 x a secret)),
      )
