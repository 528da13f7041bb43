-- ===== src/Auth/Srp.antt =====
-- src/modules/auth/srp.service.ts: SRP-6a over the 2048-bit group of RFC 5054. A buffer is a list
-- of bytes, a text of hexadecimal digits a list of code points. SHA-256, HMAC and the random bytes
-- are Node's: parameters.
pub mod Hex
pub mod Modular
pub mod ModPow
pub mod Secret
pub mod Proof
pub mod HexText
pub mod Samples
mod Tests
use mathlib.Core.List.{foldl}
use zevra_server.Prelude.{
  ℕ, zero, suc, ◌+◌, ◌-◌, ◌*◌, ◌/◌, ◌%◌, Bool, true, false, not, ◌&&◌, ◌||◌, List, [], ◌∷◌, ◌++◌,
  Option, none, some, ltb, leb, eqb, length, if◌then◌else◌,
}
use zevra_server.Js.{all, is_digit}
use Prim.Native.Nat.{bit_xor}

abbrev pub group_g : ℕ
group_g = 2

abbrev pub group_n : ℕ
group_n =
    0xFFFFFFFFFFFFFFFFC90FDAA22168C234C4C6628B80DC1CD129024E088A67CC74020BBEA63B139B22514A08798E3404DDEF9519B3CD3A431B302B0A6DF25F14374FE1356D6D51C245E485B576625E7EC6F44C42E9A637ED6B0BFF5CB6F406B7EDEE386BFB5A899FA5AE9F24117C4B1FE649286651ECE45B3DC2007CB8A163BF0598DA48361C55D39A69163FA8FD24CF5F83655D23DCA3AD961C62F356208552BB9ED529077096966D670C354E4ABC9804F1746C08CA18217C32905E462E36CE3BE39E772C180E86039B2783A2EC07A28FB5C55DF06F4C52C9DE2BCBF6955817183995497CEA956AE515D2261898FA051015728E5A8AACAA68FFFFFFFFFFFFFFFF

-- The loop of `modPow`; the first argument bounds the rounds.
unfoldable pub mod_pow_loop : ℕ → ℕ → ℕ → ℕ → ℕ → ℕ
mod_pow_loop zero result base exponent modulus = result
mod_pow_loop (suc fuel) result base exponent modulus =
    let next = if eqb (exponent % 2) 1 then result * base % modulus else result in
    let rest = mod_pow_loop fuel next (base * base % modulus) (exponent / 2) modulus in
    if ltb 0 exponent then rest else result

unfoldable pub mod_pow : ℕ → ℕ → ℕ → ℕ
unfolding mod_pow_loop
mod_pow base exponent modulus =
    mod_pow_loop exponent 1 ((base % modulus + modulus) % modulus) exponent modulus

-- Hexadecimal texts.
pub is_hex : ℕ → Bool
is_hex c = is_digit c || (leb b'a' c && leb c b'f') || (leb b'A' c && leb c b'F')

pub hex_value : ℕ → ℕ
hex_value c = if is_digit c then c - b'0' else if leb b'a' c then c - b'a' + 10 else c - b'A' + 10

pub hex_char : ℕ → ℕ
hex_char d = if ltb d 10 then b'0' + d else b'a' + (d - 10)

-- `BigInt('0x' + text)`
pub parse_hex : List ℕ → ℕ
unfolding hex_value
parse_hex = foldl (λ n c. n * 16 + hex_value c) 0

-- `n.toString(16)`; the first argument bounds the digits.
pub hex_digits : ℕ → ℕ → List ℕ → List ℕ
unfolding hex_char
hex_digits zero n text = text
hex_digits (suc fuel) n text =
    let rest = hex_digits fuel (n / 16) (hex_char (n % 16) ∷ text) in
    if ltb n 16 then hex_char n ∷ text else rest

pub zeros : ℕ → List ℕ
zeros zero = []
zeros (suc n) = b'0' ∷ zeros n

-- `Buffer.from(text, 'hex')`, which stops at the first pair that is not of two digits.
pub from_hex : List ℕ → List ℕ
unfolding is_hex hex_value
from_hex (c ∷ d ∷ text) =
    let rest = from_hex text in
    if is_hex c && is_hex d then (hex_value c * 16 + hex_value d) ∷ rest else []
from_hex _ = []

-- `buf.toString('hex')`
pub to_hex : List ℕ → List ℕ
unfolding hex_char
to_hex [] = []
to_hex (b ∷ bytes) = hex_char (b / 16) ∷ hex_char (b % 16) ∷ to_hex bytes

pub bigint_to_buffer : ℕ → List ℕ
unfolding hex_digits zeros from_hex
bigint_to_buffer n = let hex = hex_digits (suc n) n [] in from_hex (zeros (512 - length hex) ++ hex)

pub buffer_to_bigint : List ℕ → ℕ
unfolding parse_hex to_hex
buffer_to_bigint buf = parse_hex (to_hex buf)

abbrev pub max_a_hex_length : ℕ
max_a_hex_length = 1024

pub parse_client_ephemeral : List ℕ → Option ℕ
unfolding is_hex parse_hex
parse_client_ephemeral hex =
    if eqb (length hex) 0 || ltb max_a_hex_length (length hex)
    then none
    else if not (all is_hex hex)
    then none
    else if eqb (parse_hex hex % group_n) 0
    then none
    else some (parse_hex hex)

pub compute_verifier : ℕ → ℕ
compute_verifier x = mod_pow group_g x group_n

pub record Ephemeral : Type 0 where
  pub big_b : ℕ
  pub b : ℕ

pub record ProofParams : Type 0 where
  pub big_a : ℕ
  pub m1 : List ℕ
  pub b : ℕ
  pub big_b : ℕ
  pub v : ℕ
  pub srp_salt : List ℕ
  pub username : List ℕ

pub record ProofResult : Type 0 where
  pub valid : Bool
  pub m2 : List ℕ
  pub k : List ℕ

abbrev pub rejected : ProofResult
rejected = record { valid = false; m2 = []; k = [] }

pub xor_bytes : List ℕ → List ℕ → List ℕ
xor_bytes (a ∷ as') (b ∷ bs) = bit_xor a b ∷ xor_bytes as' bs
xor_bytes _ _ = []

pub same_bytes : List ℕ → List ℕ → Bool
same_bytes [] [] = true
same_bytes (a ∷ xs) (b ∷ ys) = eqb a b && same_bytes xs ys
same_bytes _ _ = false

module _ (sha256 : List ℕ → List ℕ) where
  pub multiplier : ℕ
  multiplier = buffer_to_bigint (sha256 (bigint_to_buffer group_n ++ bigint_to_buffer group_g))

  -- The argument `secret` is the 32 random bytes, as a number.
  unfoldable pub generate_server_ephemeral : ℕ → ℕ → Ephemeral
  generate_server_ephemeral v secret = record {
    big_b = (multiplier * v + mod_pow group_g secret group_n) % group_n;
    b = secret;
  }

  pub scramble : ℕ → ℕ → ℕ
  scramble big_a big_b =
      buffer_to_bigint (sha256 (bigint_to_buffer big_a ++ bigint_to_buffer big_b))

  pub server_secret : ℕ → ℕ → ℕ → ℕ → ℕ
  server_secret big_a big_b v b =
      mod_pow (big_a * mod_pow v (scramble big_a big_b) group_n) b group_n

  pub session_key : ℕ → List ℕ
  session_key s = sha256 (bigint_to_buffer s)

  pub expected_m1 : ℕ → ℕ → List ℕ → List ℕ → List ℕ
  unfolding xor_bytes
  expected_m1 big_a big_b srp_salt k =
      let h_n = sha256 (bigint_to_buffer group_n) in
      let h_g = sha256 (bigint_to_buffer group_g) in
      sha256 (
        xor_bytes h_n h_g
        ++ (sha256 (from_hex srp_salt)
            ++ (bigint_to_buffer big_a ++ (bigint_to_buffer big_b ++ k))))

  -- `M1` as bytes, when it is 64 hexadecimal digits.
  pub provided : List ℕ → List ℕ
  unfolding is_hex
  provided m1 = if eqb (length m1) 64 && all is_hex m1 then from_hex m1 else []

  -- `timingSafeEqual` is called on buffers of one length.
  pub check_proof : ProofParams → List ℕ → ProofResult
  unfolding same_bytes
  check_proof p k =
      let expected = expected_m1 p.big_a p.big_b p.srp_salt k in
      let given = provided p.m1 in
      if eqb (length given) (length expected) && same_bytes given expected
      then record {
        valid = true;
        m2 = to_hex (sha256 (bigint_to_buffer p.big_a ++ (from_hex p.m1 ++ k)));
        k = k;
      }
      else rejected

  pub verify_client_proof : ProofParams → ProofResult
  unfolding check_proof
  verify_client_proof p =
      if eqb (p.big_a % group_n) 0
      then rejected
      else check_proof p (session_key (server_secret p.big_a p.big_b p.v p.b))
