-- ===== src/Auth/Srp/Tests.antt =====
-- SRP at concrete values.
use zevra_server.Prelude.{◌%◌, ◌^◌, ◌≡◌, ◌≢◌, refl, none, some, true, false, ◌↔◌, arith}
use zevra_server.Js.{codes, all}
use zevra_server.Auth.Srp.{
  ProofParams, provided, mod_pow, parse_client_ephemeral, group_n, group_g, verify_client_proof,
  generate_server_ephemeral, compute_verifier, server_secret, bigint_to_buffer, buffer_to_bigint,
}
use zevra_server.Auth.Srp.ModPow.{mod_pow_lem}
use zevra_server.Auth.Srp.Secret.{client_secret, server_secret-client_secret}
use zevra_server.Auth.Srp.Samples.{thirty_two, is_digest}
use zevra_server.Auth.Srp.Proof.{
  expected, verify_client_proof-valid_iff, honest_params, verify_client_proof-honest,
}

powers : (mod_pow 7 560 561 ≡ 1) × (mod_pow 5 0 1 ≡ 1) × (mod_pow 10 3 7 ≡ 6)
unfolding mod_pow
powers = (refl, refl, refl)

ephemerals :
    (parse_client_ephemeral (codes "") ≡ none)
    × (parse_client_ephemeral (codes "xyz") ≡ none)
    × (parse_client_ephemeral (codes "0") ≡ none)
    × (parse_client_ephemeral (codes "abc123") ≡ some 0xabc123)
unfolding parse_client_ephemeral all
ephemerals = (refl, refl, refl, refl)

buffers : buffer_to_bigint (bigint_to_buffer 0xabc123) ≡ 0xabc123
unfolding buffer_to_bigint bigint_to_buffer
buffers = refl

mod_pow_lem_example : mod_pow 3 5 7 ≡ 3 ^ 5 % 7
mod_pow_lem_example = mod_pow_lem 3 5 7 (omega arith)

server_secret-client_secret_example :
    let big_b = (generate_server_ephemeral thirty_two (compute_verifier 12) 34).big_b in
    server_secret thirty_two (mod_pow group_g 56 group_n) big_b (compute_verifier 12) 34
    ≡ client_secret thirty_two 12 56 big_b
server_secret-client_secret_example = server_secret-client_secret thirty_two 12 56 34

small_power : mod_pow group_g 56 group_n % group_n ≢ 0
small_power = rw (mod_pow_lem group_g 56 group_n (omega arith)) (omega arith)

verify_client_proof-honest_example :
    (verify_client_proof thirty_two
      (honest_params thirty_two 12 56 34 (codes "a0") (codes "ann"))).valid
    ≡ true
verify_client_proof-honest_example =
    verify_client_proof-honest thirty_two 12 56 34 (codes "a0") (codes "ann") is_digest small_power

-- A client that sends A = N.
abbrev zero_key : ProofParams
zero_key = record {
  big_a = group_n;
  m1 = codes "00";
  b = 1;
  big_b = 2;
  v = 3;
  srp_salt = codes "a0";
  username = codes "ann";
}

zero_key_rejected : (verify_client_proof thirty_two zero_key).valid ≡ false
unfolding verify_client_proof
zero_key_rejected = refl

verify_client_proof-valid_iff_example :
    ((verify_client_proof thirty_two zero_key).valid ≡ true)
    ↔ ((group_n % group_n ≢ 0) × (provided thirty_two (codes "00") ≡ expected thirty_two zero_key))
verify_client_proof-valid_iff_example = verify_client_proof-valid_iff thirty_two zero_key
