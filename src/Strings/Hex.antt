-- ===== src/Strings/Hex.antt =====
-- encoding/hex, and the `%02X` of fmt
use pterodactyl_proxmox_back.Prelude.{
  ℕ, ◌+◌, ◌-◌, ◌*◌, ◌/◌, ◌%◌, ◌≤◌, ◌<◌, ◌≡◌, ◌⊎◌, inl, inr, [], ◌∷◌, arith, ltb, if◌then◌else◌,
  Bool-cases, Bytes, length, All, IsByte,
}

-- one digit, where `ten` is the letter for 10
unfoldable pub hex_digit : ℕ → ℕ → ℕ
hex_digit ten n = if ltb n 10 then b'0' + n else ten + (n - 10)

-- hex.EncodeToString
unfoldable pub hex : Bytes → Bytes
unfolding hex_digit
hex [] = []
hex (b ∷ bs) = hex_digit b'a' (b / 16) ∷ hex_digit b'a' (b % 16) ∷ hex bs

pub length-hex : (bs : Bytes) → length (hex bs) ≡ 2 * length bs
unfolding hex
length-hex [] = omega arith
length-hex (b ∷ bs) = omega (arith, length-hex bs)

abbrev pub IsHexDigit : ℕ → Type 0
IsHexDigit c = ((b'0' ≤ c) × (c ≤ b'9')) ⊎ ((b'a' ≤ c) × (c ≤ b'f'))

hex_digit-IsHexDigit : (n : ℕ) → n < 16 → IsHexDigit (hex_digit b'a' n)
unfolding hex_digit
hex_digit-IsHexDigit n h = elim (Bool-cases (ltb n 10)) [
  | inl e ↦ rw e (inl (ground arith, ground arith))
  | inr e ↦ rw e (inr (ground arith, ground arith))
]

pub hex-IsHexDigit : (bs : Bytes) → All IsByte bs → All IsHexDigit (hex bs)
unfolding hex
hex-IsHexDigit [] h = tt
hex-IsHexDigit (b ∷ bs) h =
    let low = hex_digit-IsHexDigit (b % 16) (omega arith) in
    (hex_digit-IsHexDigit (b / 16) (omega arith), (low, hex-IsHexDigit bs h.1))
