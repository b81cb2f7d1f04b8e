-- ===== src/SigV4/AmzDate.antt =====
-- internal/sigv4/clock.go: parseAmzDate, which is time.Parse at the layout 20060102T150405Z. An
-- instant is the number of nanoseconds since the start of the year 0. As time.Parse does, it
-- takes a fraction behind the seconds that the layout does not name.
use pterodactyl_proxmox_back.Prelude.{
  ℤ, pos, ℕ, ◌+◌, ◌-◌, ◌*◌, ◌/◌, ◌%◌, ◌≡◌, refl, Bool, false, not, ◌&&◌, ◌||◌, Option, none, some,
  List, [], ◌∷◌, ltb, leb, ◌==◌, if◌then◌else◌, Bytes, codes, take, drop,
}

unfoldable pub digit : ℕ → Option ℕ
digit c = if leb b'0' c && leb c b'9' then some (c - b'0') else none

abbrev two : Option ℕ → Option ℕ → Option ℕ
two (some a) (some b) = some (a * 10 + b)
two _ _ = none

is_leap : ℕ → Bool
is_leap y = (y % 4 == 0 && not (y % 100 == 0)) || y % 400 == 0

abbrev feb : ℕ → ℕ
feb y = if is_leap y then 29 else 28

abbrev month_lengths : ℕ → List ℕ
month_lengths y = 31 ∷ feb y ∷ 31 ∷ 30 ∷ 31 ∷ 30 ∷ 31 ∷ 31 ∷ 30 ∷ 31 ∷ 30 ∷ 31 ∷ []

abbrev sum : List ℕ → ℕ
sum [] = 0
sum (n ∷ ns) = n + sum ns

abbrev head_or_zero : List ℕ → ℕ
head_or_zero [] = 0
head_or_zero (n ∷ ns) = n

days_in : ℕ → ℕ → ℕ
days_in y m = head_or_zero (drop (m - 1) (month_lengths y))

-- the days of the years before `y`, the year 0 being a leap year
days_before_year : ℕ → ℕ
days_before_year y = 365 * y + (y + 3) / 4 - (y + 99) / 100 + (y + 399) / 400

unfoldable pub instant : ℕ → ℕ → ℕ → ℕ → ℕ → ℕ → ℕ → ℕ
unfolding is_leap days_before_year
instant y mo d h mi s ns =
    let days = days_before_year y + sum (take (mo - 1) (month_lengths y)) + (d - 1) in
    (((days * 24 + h) * 60 + mi) * 60 + s) * 1000000000 + ns

-- the checks of the ranges
in_ranges : ℕ → ℕ → ℕ → ℕ → ℕ → ℕ → Bool
in_ranges y mo d h mi s =
    leb 1 mo && leb mo 12 && ltb h 24 && ltb mi 60 && ltb s 60 && leb 1 d && leb d (days_in y mo)

-- the digits of a fraction, of which nine count, and the text behind them
fraction_from : ℕ → ℕ → Bytes → ℕ × Bytes
fraction_from scale acc [] = (acc, [])
fraction_from scale acc (c ∷ s) = elim (digit c) [
  | none ↦ (acc, c ∷ s)
  | some v ↦ fraction_from (scale / 10) (acc + v * scale) s
]

fraction : Bytes → ℕ × Bytes
fraction (p ∷ c ∷ s) = elim (digit c) [
  | none ↦ (0, p ∷ c ∷ s)
  | some v ↦ if p == b'.' || p == b',' then fraction_from 100000000 0 (c ∷ s) else (0, p ∷ c ∷ s)
]
fraction s = (0, s)

ends_in_z : Bytes → Bool
ends_in_z (z ∷ []) = z == b'Z'
ends_in_z _ = false

abbrev year_of : Option ℕ → Option ℕ → Option ℕ
year_of (some a) (some b) = some (a * 100 + b)
year_of _ _ = none

assemble : Option ℕ → Option ℕ → Option ℕ → Option ℕ → Option ℕ → Option ℕ → ℕ × Bytes → Option ℤ
assemble (some y) (some mo) (some d) (some h) (some mi) (some s) (ns, rest) =
    if in_ranges y mo d h mi s && ends_in_z rest
    then some (pos (instant y mo d h mi s ns))
    else none
assemble _ _ _ _ _ _ _ = none

unfoldable pub parse_amz_date : Bytes → Option ℤ
unfolding digit in_ranges days_in is_leap instant fraction fraction_from ends_in_z assemble
parse_amz_date (y1 ∷ y2 ∷ y3 ∷ y4 ∷ m1 ∷ m2 ∷ d1 ∷ d2 ∷ t ∷ h1 ∷ h2 ∷ i1 ∷ i2 ∷ s1 ∷ s2 ∷ rest) =
    if t == b'T'
    then assemble (year_of (two (digit y1) (digit y2)) (two (digit y3) (digit y4)))
        (two (digit m1) (digit m2)) (two (digit d1) (digit d2)) (two (digit h1) (digit h2))
        (two (digit i1) (digit i2)) (two (digit s1) (digit s2)) (fraction rest)
    else none
parse_amz_date _ = none

epoch_days : days_before_year 1970 ≡ 719528
unfolding days_before_year
epoch_days = refl

date_2013 : parse_amz_date (codes "20130524T000000Z") ≡ some (pos 63536572800000000000)
unfolding parse_amz_date
date_2013 = refl

date_fraction : parse_amz_date (codes "20130524T000001.25Z") ≡ some (pos 63536572801250000000)
unfolding parse_amz_date
date_fraction = refl

date_refused : parse_amz_date (codes "20130229T000000Z") ≡ none
unfolding parse_amz_date
date_refused = refl
