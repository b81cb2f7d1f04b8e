-- ===== src/IdMap/Clean.antt =====
-- Keys that are valid ids already, with or without an archive extension.
use mathlib.Core.List.{reverse, reverse-append}
use pterodactyl_proxmox_back.Prelude.{
  ◌≤◌, ◌≡◌, refl, ap, ◌∙◌, inl, inr, true, false, [], ◌∷◌, ◌++◌, map, append-nil, arith, Bool-cases,
  Bytes, codes, length, All, All-reverse,
}
use pterodactyl_proxmox_back.Strings.{has_prefix, has_suffix}
use pterodactyl_proxmox_back.Strings.Utf8.{IsAscii, runes_of_IsAscii}
use pterodactyl_proxmox_back.Strings.Suffix.{
  has_suffix-append, trim_suffix-append, has_prefix_of_has_suffix,
}
use pterodactyl_proxmox_back.IdMap.{
  Sha256, known_extensions, strip_known_extensions, sanitize_chars, is_clean_lossless,
  sanitized_key, is_kept, sanitize_backup_id, sanitize_rune, or_key,
}
use pterodactyl_proxmox_back.IdMap.Valid.{IdChar, is_id_char_iff, IsBackupId}
use pterodactyl_proxmox_back.Strings.Equal.{eq_bytes_refl}

-- To see that a text does not end in a suffix, read both from the end.
ext_absent :
    (ext suffix x : Bytes)
    → has_prefix (reverse ext ++ reverse x) (reverse suffix) ≡ false
    → has_suffix (x ++ ext) suffix ≡ false
ext_absent ext suffix x h = elim (Bool-cases (has_suffix (x ++ ext) suffix)) [
  | inl e ↦
      let e' : has_prefix (reverse ext ++ reverse x) (reverse suffix) ≡ true =
        rw (← reverse-append x ext) (has_prefix_of_has_suffix (x ++ ext) suffix e) in
      cc (h, e')
  | inr e ↦ e
]

-- No text of id characters has a prefix with a dot.
no_dot : (a b y : Bytes) → All IdChar y → has_prefix y (a ++ (b'.' ∷ b)) ≡ false
unfolding has_prefix
no_dot [] b [] h = refl
no_dot [] b (c ∷ y) h = grind arith
no_dot (d ∷ a) b [] h = refl
no_dot (d ∷ a) b (c ∷ y) h = ground (arith, no_dot a b y h.1)

module _ (x : Bytes) (clean : All IdChar x) where
  back : All IdChar (reverse x)
  back = All-reverse IdChar x clean

  dotted : (a b : Bytes) → has_prefix (reverse x) (a ++ (b'.' ∷ b)) ≡ false
  dotted a b = no_dot a b (reverse x) back

  absent_gz : has_suffix (x ++ codes ".gz") (codes ".tar.gz") ≡ false
  absent_gz =
      ext_absent (codes ".gz") (codes ".tar.gz") x (unfold has_prefix in dotted (codes "rat") [])

  -- an extension that does not end as the other one does
  absent_other :
      (ext suffix : Bytes)
      → has_prefix (reverse ext ++ reverse x) (reverse suffix) ≡ false
      → has_suffix (x ++ ext) suffix ≡ false
  absent_other ext suffix h = ext_absent ext suffix x h

  strip-tar_gz : strip_known_extensions (x ++ codes ".tar.gz") ≡ x
  unfolding strip_known_extensions
  strip-tar_gz = rw (has_suffix-append x (codes ".tar.gz")) (trim_suffix-append x (codes ".tar.gz"))

  strip-tgz : strip_known_extensions (x ++ codes ".tgz") ≡ x
  unfolding strip_known_extensions
  strip-tgz =
      rw
        (
          absent_other (codes ".tgz") (codes ".tar.gz") (unfold has_prefix in refl),
          has_suffix-append x (codes ".tgz"),
        )
        (trim_suffix-append x (codes ".tgz"))

  strip-tar : strip_known_extensions (x ++ codes ".tar") ≡ x
  unfolding strip_known_extensions
  strip-tar =
      rw
        (
          absent_other (codes ".tar") (codes ".tar.gz") (unfold has_prefix in refl),
          absent_other (codes ".tar") (codes ".tgz") (unfold has_prefix in refl),
          has_suffix-append x (codes ".tar"),
        )
        (trim_suffix-append x (codes ".tar"))

  strip-gz : strip_known_extensions (x ++ codes ".gz") ≡ x
  unfolding strip_known_extensions
  strip-gz =
      rw
        (
          absent_gz,
          absent_other (codes ".gz") (codes ".tgz") (unfold has_prefix in refl),
          absent_other (codes ".gz") (codes ".tar") (unfold has_prefix in refl),
          has_suffix-append x (codes ".gz"),
        )
        (trim_suffix-append x (codes ".gz"))

  strip-zip : strip_known_extensions (x ++ codes ".zip") ≡ x
  unfolding strip_known_extensions
  strip-zip =
      rw
        (
          absent_other (codes ".zip") (codes ".tar.gz") (unfold has_prefix in refl),
          absent_other (codes ".zip") (codes ".tgz") (unfold has_prefix in refl),
          absent_other (codes ".zip") (codes ".tar") (unfold has_prefix in refl),
          absent_other (codes ".zip") (codes ".gz") (unfold has_prefix in refl),
          has_suffix-append x (codes ".zip"),
        )
        (trim_suffix-append x (codes ".zip"))

  strip-nil : strip_known_extensions (x ++ []) ≡ x
  unfolding strip_known_extensions
  strip-nil =
      rw
        (
          absent_other [] (codes ".tar.gz") (dotted (codes "zg.rat") []),
          absent_other [] (codes ".tgz") (dotted (codes "zgt") []),
          absent_other [] (codes ".tar") (dotted (codes "rat") []),
          absent_other [] (codes ".gz") (dotted (codes "zg") []),
          absent_other [] (codes ".zip") (dotted (codes "piz") []),
        )
        (append-nil x)

  runes_clean : (y : Bytes) → All IdChar y → All IsAscii y
  runes_clean [] h = tt
  runes_clean (c ∷ y) h = (grind arith, runes_clean y h.1)

  map_clean : (y : Bytes) → All IdChar y → map sanitize_rune y ≡ y
  map_clean [] h = refl
  map_clean (c ∷ y) h = rw ((is_id_char_iff c).1 h.0, map_clean y h.1)

  sanitize_chars_clean : sanitize_chars x ≡ x
  unfolding sanitize_chars
  sanitize_chars_clean =
      ap (map sanitize_rune) (runes_of_IsAscii x (runes_clean x clean)) ∙ map_clean x clean

  module _ (pos : 1 ≤ length x) where
    or_key_clean : (y : Bytes) → 1 ≤ length y → or_key y ≡ y
    unfolding or_key
    or_key_clean [] h = absurd (omega arith)
    or_key_clean (c ∷ y) h = refl

    sanitized_key_clean : (key : Bytes) → strip_known_extensions key ≡ x → sanitized_key key ≡ x
    unfolding sanitized_key
    sanitized_key_clean key e = rw (e, sanitize_chars_clean) (or_key_clean x pos)

    is_kept_clean :
        (key : Bytes) → strip_known_extensions key ≡ x → length x ≤ 60 → is_kept key ≡ true
    unfolding is_kept is_clean_lossless
    is_kept_clean key e h = rw (sanitized_key_clean key e, e, eq_bytes_refl x) (ground arith)

module _ (sha : Sha256) (x : Bytes) (clean : IsBackupId x) where
  kept : (key : Bytes) → strip_known_extensions key ≡ x → sanitize_backup_id sha key ≡ x
  unfolding sanitize_backup_id
  kept key e =
      rw (is_kept_clean x clean.2 clean.0 key e clean.1)
        (sanitized_key_clean x clean.2 clean.0 key e)

  -- A key that is a valid id, alone or before one of the five archive extensions, is mapped to
  -- that id.
  pub sanitize_backup_id_clean :
      All (λ ext. sanitize_backup_id sha (x ++ ext) ≡ x) ([] ∷ known_extensions)
  sanitize_backup_id_clean =
      let h = clean.2 in
      (
        kept _ (strip-nil x h),
        (
          kept _ (strip-tar_gz x h),
          (
            kept _ (strip-tgz x h),
            (kept _ (strip-tar x h), (kept _ (strip-gz x h), (kept _ (strip-zip x h), tt))),
          ),
        ),
      )
