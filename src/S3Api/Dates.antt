-- ===== src/S3Api/Dates.antt =====
-- The formats of times in headers and in documents.
use pterodactyl_proxmox_back.Prelude.{
  pos, ℕ, zero, suc, ◌-◌, ◌/◌, ◌%◌, List, [], ◌∷◌, ◌++◌, Bytes, codes, take,
}
use pterodactyl_proxmox_back.Strings.Decimal.{padded}
use pterodactyl_proxmox_back.Pbs.Time.{second, civil, format_time}

-- Format("2006-01-02T15:04:05.000Z")
unfoldable pub format_millis : ℕ → Bytes
format_millis t =
    take 19 (format_time t) ++ (b'.' ∷ padded 3 (pos (t / 1000000 % 1000))) ++ (b'Z' ∷ [])

abbrev nth_name : ℕ → List Bytes → Bytes
nth_name n [] = []
nth_name zero (s ∷ ss) = s
nth_name (suc n) (s ∷ ss) = nth_name n ss

abbrev day_names : List Bytes
day_names =
    codes "Sat"
    ∷ codes "Sun"
    ∷ codes "Mon"
    ∷ codes "Tue"
    ∷ codes "Wed"
    ∷ codes "Thu"
    ∷ codes "Fri"
    ∷ []

abbrev month_names : List Bytes
month_names =
    codes "Jan"
    ∷ codes "Feb"
    ∷ codes "Mar"
    ∷ codes "Apr"
    ∷ codes "May"
    ∷ codes "Jun"
    ∷ codes "Jul"
    ∷ codes "Aug"
    ∷ codes "Sep"
    ∷ codes "Oct"
    ∷ codes "Nov"
    ∷ codes "Dec"
    ∷ []

-- Format(http.TimeFormat); the first of January of year 0 is a Saturday
unfoldable pub format_http : ℕ → Bytes
format_http t =
    let s = t / second in
    let c = civil (s / 86400) in
    nth_name (s / 86400 % 7) day_names
    ++ (b',' ∷ b' ' ∷ padded 2 (pos c.day))
    ++ (b' ' ∷ nth_name (c.month - 1) month_names)
    ++ (b' ' ∷ padded 4 (pos c.year))
    ++ (b' ' ∷ padded 2 (pos (s / 3600 % 24)))
    ++ (b':' ∷ padded 2 (pos (s / 60 % 60)))
    ++ (b':' ∷ padded 2 (pos (s % 60)))
    ++ codes " GMT"
