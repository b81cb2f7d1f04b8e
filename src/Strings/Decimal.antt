-- ===== src/Strings/Decimal.antt =====
-- Numbers in decimal, as fmt and strconv write them.
pub mod Order
use pterodactyl_proxmox_back.Prelude.{
  ℤ, pos, negsuc, ℕ, zero, suc, ◌+◌, ◌-◌, ◌/◌, ◌%◌, [], ◌∷◌, ltb, if◌then◌else◌, Bytes, length,
}

-- `fuel` bounds the number of digits.
digits_of : ℕ → ℕ → Bytes → Bytes
digits_of zero n acc = acc
digits_of (suc fuel) n acc =
    let more = digits_of fuel (n / 10) ((b'0' + n % 10) ∷ acc) in
    if ltb n 10 then (b'0' + n) ∷ acc else more

unfoldable pub decimal : ℕ → Bytes
unfolding digits_of
decimal n = digits_of (suc n) n []

zeros : ℕ → Bytes → Bytes
zeros zero s = s
zeros (suc n) s = b'0' ∷ zeros n s

-- `%0<width>d`: the sign comes before the zeros
unfoldable pub padded : ℕ → ℤ → Bytes
unfolding zeros
padded width (pos n) = let s = decimal n in zeros (width - length s) s
padded width (negsuc n) = let s = decimal (suc n) in b'-' ∷ zeros (width - 1 - length s) s

-- strconv.Itoa, strconv.FormatInt and `%d`
unfoldable pub itoa : ℤ → Bytes
itoa (pos n) = decimal n
itoa (negsuc n) = b'-' ∷ decimal (suc n)
