-- ===== src/S3Api/Range.antt =====
-- internal/s3api/get_object.go: parseRange, and the bounds of what it accepts.
use pterodactyl_proxmox_back.Prelude.{
  ℤ, pos, negsuc, ℕ, zero, suc, ◌≡◌, inl, inr, Bool, true, false, not, ◌&&◌, ◌||◌, Option, none,
  some, [], ◌∷◌, arith, if◌then◌else◌, Bool-cases, Bytes, codes,
}
use pterodactyl_proxmox_back.Prelude.Int.{◌-ℤ◌, ◌≤ℤ◌, ◌<ℤ◌, ltb_ℤ}
use pterodactyl_proxmox_back.Strings.{has_prefix, trim_prefix, cut, contains}
use pterodactyl_proxmox_back.Strings.Number.{parse_int}

abbrev range_prefix : Bytes
range_prefix = codes "bytes="

abbrev min_ℤ : ℤ → ℤ → ℤ
min_ℤ a b = if ltb_ℤ b a then b else a

-- the last bytes: `n` of an object of this size
unfoldable pub suffix_range : Option ℤ → ℤ → Option (ℤ × ℤ)
suffix_range none size = none
suffix_range (some n) size =
    if ltb_ℤ (pos 0) n then some (size -ℤ min_ℤ n size, size -ℤ pos 1) else none

abbrev is_zero : ℤ → Bool
is_zero (pos zero) = true
is_zero (pos (suc n)) = false
is_zero (negsuc n) = false

-- the test of the two ends, the last byte brought into the object
unfoldable pub closed_range : ℤ → ℤ → ℤ → Option (ℤ × ℤ)
closed_range start last size =
    let end_ = if ltb_ℤ last size then last else size -ℤ pos 1 in
    if ltb_ℤ end_ start || is_zero size then none else some (start, end_)

-- the last byte, where the text may be empty
abbrev last_of : Bytes → ℤ → Option ℤ
last_of [] size = some (size -ℤ pos 1)
last_of (c ∷ s) size = parse_int 10 (c ∷ s)

unfoldable pub range_from : Option ℤ → Option ℤ → ℤ → Option (ℤ × ℤ)
range_from none last size = none
range_from (some start) none size = none
range_from (some start) (some last) size =
    if ltb_ℤ start (pos 0) then none else closed_range start last size

abbrev range_of : Option (Bytes × Bytes) → ℤ → Option (ℤ × ℤ)
range_of none size = none
range_of (some ([], b)) size = suffix_range (parse_int 10 b) size
range_of (some (c ∷ a, b)) size = range_from (parse_int 10 (c ∷ a)) (last_of b size) size

-- parseRange; `none` is a false `ok`
unfoldable pub parse_range : Bytes → ℤ → Option (ℤ × ℤ)
parse_range header size =
    if has_prefix header range_prefix
      && not (contains (trim_prefix header range_prefix) (b',' ∷ []))
    then range_of (cut b'-' (trim_prefix header range_prefix)) size
    else none

-- What is a range of an object of this size.
abbrev pub Within : ℤ → ℤ × ℤ → Type 0
Within size (start, end_) = (pos 0 ≤ℤ start) × (start ≤ℤ end_) × (end_ <ℤ size)

suffix_range-Within :
    (o : Option ℤ) (n : ℕ) {r : ℤ × ℤ}
    → suffix_range o (pos (suc n)) ≡ some r
    → Within (pos (suc n)) r
unfolding suffix_range ◌-ℤ◌
suffix_range-Within none n h = cc
suffix_range-Within (some m) n h = ground arith

closed_range-Within :
    (start last : ℤ) (n : ℕ) {r : ℤ × ℤ}
    → pos 0 ≤ℤ start
    → closed_range start last (pos (suc n)) ≡ some r
    → Within (pos (suc n)) r
unfolding closed_range ◌-ℤ◌
closed_range-Within start last n p h = ground arith

range_from-Within :
    (a b : Option ℤ) (n : ℕ) {r : ℤ × ℤ}
    → range_from a b (pos (suc n)) ≡ some r
    → Within (pos (suc n)) r
unfolding range_from
range_from-Within none b n h = cc
range_from-Within (some start) none n h = cc
range_from-Within (some start) (some last) n {r = r} h =
    ground (arith, closed_range-Within start last n {r = r})

range_of-Within :
    (o : Option (Bytes × Bytes)) (n : ℕ) {r : ℤ × ℤ}
    → range_of o (pos (suc n)) ≡ some r
    → Within (pos (suc n)) r
range_of-Within none n h = cc
range_of-Within (some ([], b)) n h = suffix_range-Within (parse_int 10 b) n h
range_of-Within (some (c ∷ a, b)) n h =
    range_from-Within (parse_int 10 (c ∷ a)) (last_of b (pos (suc n))) n h

-- A range that is accepted for an object that is not empty lies in the object, and is not empty.
pub parse_range-Within :
    (header : Bytes) (n : ℕ) {r : ℤ × ℤ}
    → parse_range header (pos (suc n)) ≡ some r
    → Within (pos (suc n)) r
unfolding parse_range
parse_range-Within header n h =
    elim (Bool-cases (
      has_prefix header range_prefix
      && not (contains (trim_prefix header range_prefix) (b',' ∷ [])))) [
        | inl e ↦ range_of-Within (cut b'-' (trim_prefix header range_prefix)) n (rw e at h)
        | inr e ↦ cc (rw e at h)
      ]
