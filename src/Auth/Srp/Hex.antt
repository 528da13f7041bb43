-- ===== src/Auth/Srp/Hex.antt =====
-- Hexadecimal texts of bytes.
use zevra_server.Prelude.{ℕ, ◌*◌, ◌/◌, ◌%◌, ◌<◌, ◌≡◌, refl, List, [], ◌∷◌, true, arith, length, ◌↔◌}
use zevra_server.Js.{all}
use zevra_server.Auth.Srp.{is_hex, hex_value, hex_char, from_hex, to_hex, same_bytes}

abbrev pub IsBytes : List ℕ → Type 0
IsBytes [] = Unit
IsBytes (b ∷ bs) = (b < 256) × IsBytes bs

is_hex-hex_char : (d : ℕ) → d < 16 → is_hex (hex_char d) ≡ true
unfolding is_hex hex_char
is_hex-hex_char d h = ground arith

hex_value-hex_char : (d : ℕ) → d < 16 → hex_value (hex_char d) ≡ d
unfolding hex_value hex_char
hex_value-hex_char d h = ground arith

pub length-to_hex : (bs : List ℕ) → length (to_hex bs) ≡ 2 * length bs
unfolding to_hex
length-to_hex [] = refl
length-to_hex (b ∷ bs) = omega (arith, length-to_hex bs)

pub all-to_hex : (bs : List ℕ) → IsBytes bs → all is_hex (to_hex bs) ≡ true
unfolding to_hex all
all-to_hex [] h = refl
all-to_hex (b ∷ bs) (h, hs) =
    rw (is_hex-hex_char (b / 16) (omega arith), is_hex-hex_char (b % 16) (omega arith))
      (all-to_hex bs hs)

-- Decoding a buffer's hexadecimal text gives the buffer back.
pub from_hex-to_hex : (bs : List ℕ) → IsBytes bs → from_hex (to_hex bs) ≡ bs
unfolding from_hex to_hex
from_hex-to_hex [] h = refl
from_hex-to_hex (b ∷ bs) (h, hs) = ground (
  arith,
  is_hex-hex_char (b / 16),
  is_hex-hex_char (b % 16),
  hex_value-hex_char (b / 16),
  hex_value-hex_char (b % 16),
  from_hex-to_hex bs hs,
)

pub same_bytes_iff : (xs ys : List ℕ) → (same_bytes xs ys ≡ true) ↔ (xs ≡ ys)
unfolding same_bytes
same_bytes_iff [] [] = (λ _. refl, λ _. refl)
same_bytes_iff [] (y ∷ ys) = (λ h. cc, λ h. cc)
same_bytes_iff (x ∷ xs) [] = (λ h. cc, λ h. cc)
same_bytes_iff (x ∷ xs) (y ∷ ys) =
    (λ h. ground (arith, same_bytes_iff xs ys), λ h. ground (arith, same_bytes_iff xs ys))
