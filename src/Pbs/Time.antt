-- ===== src/Pbs/Time.antt =====
-- time.Time in internal/pbs, as nanoseconds since the first of January of year 0: the second of
-- Unix time, and the format of a snapshot's time.
use pterodactyl_proxmox_back.Prelude.{
  ℤ, pos, ℕ, ◌+◌, ◌-◌, ◌*◌, ◌/◌, ◌%◌, [], ◌∷◌, ◌++◌, ltb, leb, if◌then◌else◌, Bytes,
}
use pterodactyl_proxmox_back.Prelude.Int.{pos_part, ◌+ℤ◌, ◌-ℤ◌}
use pterodactyl_proxmox_back.Strings.Decimal.{padded}

abbrev pub second : ℕ
second = 1000000000

-- seconds from the start of year 0 to that of 1970
abbrev pub unix_epoch : ℕ
unix_epoch = 62167219200

-- Time.Unix
unfoldable pub unix : ℕ → ℤ
unix t = pos (t / second) -ℤ pos unix_epoch

-- time.Unix(s, 0), for a time that is not before year 0
unfoldable pub from_unix : ℤ → ℕ
from_unix s = pos_part (s +ℤ pos unix_epoch) * second

pub record Civil : Type 0 where
  pub year : ℕ
  pub month : ℕ
  pub day : ℕ

-- the date of a day since the first of January of year 0: a year is counted from March, in eras of
-- 400 years
unfoldable pub civil : ℕ → Civil
civil days =
    let z = days + 146037 in
    let era = z / 146097 in
    let doe = z % 146097 in
    let yoe = (doe + doe / 36524 - doe / 1460 - doe / 146096) / 365 in
    let doy = doe - (365 * yoe + yoe / 4 - yoe / 100) in
    let mp = (5 * doy + 2) / 153 in
    let month = if ltb mp 10 then mp + 3 else mp - 9 in
    record {
      year = yoe + era * 400 + (if leb month 2 then 1 else 0) - 400;
      month = month;
      day = doy - (153 * mp + 2) / 5 + 1;
    }

-- Format("2006-01-02T15:04:05Z") of a time in UTC
unfoldable pub format_time : ℕ → Bytes
format_time t =
    let s = t / second in
    let c = civil (s / 86400) in
    padded 4 (pos c.year)
    ++ (b'-' ∷ padded 2 (pos c.month))
    ++ (b'-' ∷ padded 2 (pos c.day))
    ++ (b'T' ∷ padded 2 (pos (s / 3600 % 24)))
    ++ (b':' ∷ padded 2 (pos (s / 60 % 60)))
    ++ (b':' ∷ padded 2 (pos (s % 60)))
    ++ (b'Z' ∷ [])
