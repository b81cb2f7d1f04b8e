-- ===== src/Strings/Number.antt =====
-- strconv.ParseInt and strconv.Atoi: a sign, digits of the base, and the range of an int64.
-- Every error is `none`.
use pterodactyl_proxmox_back.Prelude.{
  ℤ, pos, negsuc, ℕ, zero, suc, ◌+◌, ◌-◌, ◌*◌, ◌^◌, ◌≡◌, ◌&&◌, Option, none, some, [], ◌∷◌, arith,
  ltb, leb, ◌==◌, if◌then◌else◌, Bytes,
}
use pterodactyl_proxmox_back.Prelude.Int.{Int64}

unfoldable pub digit_value : ℕ → Option ℕ
digit_value c =
    if leb b'0' c && leb c b'9'
    then some (c - b'0')
    else if leb b'a' c && leb c b'z'
    then some (c - b'a' + 10)
    else if leb b'A' c && leb c b'Z'
    then some (c - b'A' + 10)
    else none

step_digit : ℕ → Option ℕ → ℕ → Option ℕ
step_digit base d acc = elim d [
  | none ↦ none
  | some v ↦ if ltb v base then some (acc * base + v) else none
]

digits_from : ℕ → ℕ → Bytes → Option ℕ
unfolding step_digit digit_value
digits_from base acc [] = some acc
digits_from base acc (c ∷ s) = elim (step_digit base (digit_value c) acc) [
  | none ↦ none
  | some a ↦ digits_from base a s
]

-- one digit at least
abbrev magnitude : ℕ → Bytes → Option ℕ
magnitude base [] = none
magnitude base (c ∷ s) = digits_from base 0 (c ∷ s)

abbrev in_range_pos : Option ℕ → Option ℤ
in_range_pos none = none
in_range_pos (some n) = if ltb n (2 ^ 63) then some (pos n) else none

abbrev in_range_neg : Option ℕ → Option ℤ
in_range_neg none = none
in_range_neg (some zero) = some (pos 0)
in_range_neg (some (suc n)) = if leb (suc n) (2 ^ 63) then some (negsuc n) else none

unfoldable pub parse_int : ℕ → Bytes → Option ℤ
unfolding digits_from
parse_int base [] = none
parse_int base (c ∷ s) =
    if c == b'+'
    then in_range_pos (magnitude base s)
    else if c == b'-'
    then in_range_neg (magnitude base s)
    else in_range_pos (magnitude base (c ∷ s))

-- strconv.Atoi, where `int` has 64 bits
abbrev pub atoi : Bytes → Option ℤ
atoi = parse_int 10

in_range_pos-Int64 : (o : Option ℕ) {z : ℤ} → in_range_pos o ≡ some z → Int64 z
in_range_pos-Int64 o h = ground arith

in_range_neg-Int64 : (o : Option ℕ) {z : ℤ} → in_range_neg o ≡ some z → Int64 z
in_range_neg-Int64 (some zero) {z} h = ground arith
in_range_neg-Int64 o h = ground arith

pub parse_int-Int64 : (base : ℕ) (s : Bytes) {z : ℤ} → parse_int base s ≡ some z → Int64 z
unfolding parse_int
parse_int-Int64 base [] h = cc
parse_int-Int64 base (c ∷ s) h = ground (
  arith,
  in_range_pos-Int64 (magnitude base s),
  in_range_neg-Int64 (magnitude base s),
  in_range_pos-Int64 (magnitude base (c ∷ s)),
)
