-- ===== src/IdMap/Valid.antt =====
-- Every id that SanitizeBackupID returns is one that PBS accepts.
use pterodactyl_proxmox_back.Strings.Utf8.{runes}
use pterodactyl_proxmox_back.Strings.Hex.{hex, length-hex, IsHexDigit, hex-IsHexDigit}
use pterodactyl_proxmox_back.IdMap.{
  Sha256, strip_known_extensions, is_id_char, sanitize_chars, sanitized_key, is_kept, hash_suffix,
  hashed_id, sanitize_backup_id, sanitize_rune, or_key,
}
use pterodactyl_proxmox_back.Prelude.{
  ℕ, zero, suc, ◌-◌, ◌≤◌, ◌≡◌, refl, ap, ◌↔◌, ◌⊎◌, inl, inr, true, List, [], ◌∷◌, map, arith,
  if◌then◌else◌, leb→le, Bool-cases, &&-eq-true, Bytes, length, take, length-append, length-take-le,
  All, All-append, All-take,
}

-- [A-Za-z0-9_-]
abbrev pub IdChar : ℕ → Type 0
IdChar c =
    ((b'A' ≤ c) × (c ≤ b'Z'))
    ⊎ ((b'a' ≤ c) × (c ≤ b'z'))
    ⊎ ((b'0' ≤ c) × (c ≤ b'9'))
    ⊎ (c ≡ b'-')
    ⊎ (c ≡ b'_')

pub is_id_char_iff : (c : ℕ) → (is_id_char c ≡ true) ↔ IdChar c
unfolding is_id_char
is_id_char_iff c = (λ h. grind arith, λ h. grind arith)

abbrev pub IsBackupId : Bytes → Type 0
IsBackupId id = (1 ≤ length id) × (length id ≤ 60) × All IdChar id

sanitize_rune-IdChar : (r : ℕ) → IdChar (if is_id_char r then r else b'_')
sanitize_rune-IdChar r = elim (Bool-cases (is_id_char r)) [
  | inl e ↦ rw e ((is_id_char_iff r).0 e)
  | inr e ↦ rw e (inr (inr (inr (inr refl))))
]

map-IdChar : (rs : List ℕ) → All IdChar (map sanitize_rune rs)
map-IdChar [] = tt
map-IdChar (r ∷ rs) = (sanitize_rune-IdChar r, map-IdChar rs)

sanitize_chars-IdChar : (s : Bytes) → All IdChar (sanitize_chars s)
unfolding sanitize_chars
sanitize_chars-IdChar s = map-IdChar (runes s)

or_key-IdChar : (s : Bytes) → All IdChar s → All IdChar (or_key s)
unfolding or_key
or_key-IdChar [] h = ground arith
or_key-IdChar (c ∷ s) h = h

or_key-pos : (s : Bytes) → 1 ≤ length (or_key s)
unfolding or_key
or_key-pos [] = omega arith
or_key-pos (c ∷ s) = omega arith

pub sanitized_key-IdChar : (key : Bytes) → All IdChar (sanitized_key key)
unfolding sanitized_key
sanitized_key-IdChar key =
    or_key-IdChar (sanitize_chars (strip_known_extensions key))
      (sanitize_chars-IdChar (strip_known_extensions key))

pub sanitized_key-pos : (key : Bytes) → 1 ≤ length (sanitized_key key)
unfolding sanitized_key
sanitized_key-pos key = or_key-pos (sanitize_chars (strip_known_extensions key))

IsHexDigit-IdChar : (s : Bytes) → All IsHexDigit s → All IdChar s
IsHexDigit-IdChar [] h = tt
IsHexDigit-IdChar (c ∷ s) h = (grind arith, IsHexDigit-IdChar s h.1)

length-take_of_le {ℓ} : {A : Type ℓ} (n : ℕ) (xs : List A) → n ≤ length xs → length (take n xs) ≡ n
length-take_of_le zero xs h = refl
length-take_of_le (suc n) [] h = absurd (omega arith)
length-take_of_le (suc n) (x ∷ xs) h = ap suc (length-take_of_le n xs (omega arith))

module _ (sha : Sha256) where
  pub length-hash_suffix : (key : Bytes) → length (hash_suffix sha key) ≡ 8
  unfolding hash_suffix
  length-hash_suffix key =
      length-take_of_le 8 (hex (sha.sum key))
        (omega (arith, length-hex (sha.sum key), sha.length_sum key))

  hash_suffix-IdChar : (key : Bytes) → All IdChar (hash_suffix sha key)
  unfolding hash_suffix
  hash_suffix-IdChar key = IsHexDigit-IdChar _ (
      All-take IsHexDigit 8 (hex (sha.sum key)) (hex-IsHexDigit (sha.sum key) (sha.sum_IsByte key)))

  hashed_id-IsBackupId : (key : Bytes) → IsBackupId (hashed_id sha key)
  unfolding hashed_id
  hashed_id-IsBackupId key =
      let suffix = hash_suffix sha key in
      let prefix = take (60 - length suffix - 1) (sanitized_key key) in
      let l = length-append prefix (b'-' ∷ suffix) in
      (
        omega (arith, l),
        omega (
          arith,
          l,
          length-hash_suffix key,
          length-take-le (60 - length suffix - 1) (sanitized_key key),
        ),
        All-append IdChar prefix (b'-' ∷ suffix)
            (All-take IdChar _ (sanitized_key key) (sanitized_key-IdChar key))
            (inr (inr (inr (inl refl))), hash_suffix-IdChar key),
      )

  -- Whatever the key, the id that SanitizeBackupID makes of it is not empty, has at most 60
  -- characters, and consists of ASCII letters, digits, `_` and `-`.
  pub sanitize_backup_id-IsBackupId : (key : Bytes) → IsBackupId (sanitize_backup_id sha key)
  unfolding sanitize_backup_id is_kept
  sanitize_backup_id-IsBackupId key = elim (Bool-cases (is_kept key)) [
    | inl e ↦ rw e (
      sanitized_key-pos key,
      leb→le (length (sanitized_key key)) 60 (&&-eq-true _ _ e).1,
      sanitized_key-IdChar key,
    )
    | inr e ↦ rw e (hashed_id-IsBackupId key)
  ]
