-- ===== src/Strings/Lower.antt =====
-- strings.ToLower, as far as a search for ASCII texts can tell: the two characters beyond ASCII
-- with a lower case in ASCII are mapped, and all others beyond ASCII are left.
use pterodactyl_proxmox_back.Prelude.{
  ℕ, zero, suc, ◌+◌, true, false, ◌&&◌, [], ◌∷◌, leb, if◌then◌else◌, Bytes,
}
use pterodactyl_proxmox_back.Strings.{has_prefix}

-- U+212A and U+0130
abbrev kelvin_sign : Bytes
kelvin_sign = 226 ∷ 132 ∷ 170 ∷ []

abbrev dotted_i : Bytes
dotted_i = 196 ∷ 176 ∷ []

unfoldable pub lower_byte : ℕ → ℕ
lower_byte c = if leb b'A' c && leb c b'Z' then c + 32 else c

-- `skip` bytes belong to the character before
lower_from : ℕ → Bytes → Bytes
lower_from skip [] = []
lower_from (suc skip) (c ∷ s) = lower_from skip s
lower_from zero (c ∷ s) = elim (has_prefix (c ∷ s) kelvin_sign) [
  | true ↦ b'k' ∷ lower_from 2 s
  | false ↦ elim (has_prefix (c ∷ s) dotted_i) [
    | true ↦ b'i' ∷ lower_from 1 s
    | false ↦ lower_byte c ∷ lower_from 0 s
  ]
]

unfoldable pub to_lower : Bytes → Bytes
unfolding lower_from
to_lower s = lower_from 0 s
