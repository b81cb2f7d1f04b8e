-- ===== src/IdMap/Distinct.antt =====
-- When two keys may share a backup id, and how keys are grouped.
use pterodactyl_proxmox_back.Prelude.{
  ℕ, suc, ◌-◌, ◌≡◌, refl, sym, ap, ◌∙◌, ◌⊎◌, inl, inr, true, false, Option, none, some, List, [],
  ◌∷◌, ◌++◌, ◌==◌, Bool-cases, &&-eq-true, Bytes, length, take,
}
use pterodactyl_proxmox_back.Strings.{cut, push_head, split}
use pterodactyl_proxmox_back.Strings.Equal.{eq_bytes_iff}
use pterodactyl_proxmox_back.Strings.Suffix.{append_cancel_right}
use pterodactyl_proxmox_back.IdMap.{
  Sha256, max_backup_id_len, strip_known_extensions, is_clean_lossless, sanitized_key, is_kept,
  hash_suffix, hashed_id, sanitize_backup_id, group_id_from_key, segment_or,
}
use pterodactyl_proxmox_back.IdMap.Valid.{length-hash_suffix}

-- `id` is what the text `s` hashed to `suffix` would be called.
abbrev pub EndsHashed : Bytes → Bytes → Type 0
EndsHashed id suffix = (p : Bytes) × (id ≡ p ++ (b'-' ∷ suffix))

kept_stripped : (key : Bytes) → is_kept key ≡ true → strip_known_extensions key ≡ sanitized_key key
unfolding is_kept is_clean_lossless
kept_stripped key h =
    (eq_bytes_iff (strip_known_extensions key) (sanitized_key key)).0 (&&-eq-true _ _ h).0

add_head :
    (c sep : ℕ) (s : Bytes) (o : Option (Bytes × Bytes)) (ps : List Bytes)
    → split sep s ≡ segment_or s o ∷ ps
    → push_head c (split sep s)
      ≡ segment_or (c ∷ s) (elim o [ none ↦ none | some (a, b) ↦ some (c ∷ a, b) ]) ∷ ps
add_head c sep s none ps h = rw h
add_head c sep s (some (a, b)) ps h = rw h

-- The first part of a split is what `cut` cuts off.
split-segment :
    (sep : ℕ) (s : Bytes) → (ps : List Bytes) × (split sep s ≡ segment_or s (cut sep s) ∷ ps)
unfolding split cut
split-segment sep [] = ([], refl)
split-segment sep (c ∷ s) = elim (Bool-cases (c == sep)) [
  | inl e ↦ (split sep s, rw e)
  | inr e ↦ let (ps, h) = split-segment sep s in (ps, rw e (add_head c sep s (cut sep s) ps h))
]

module _ (sha : Sha256) where
  id_of_kept :
      (key : Bytes) → is_kept key ≡ true → sanitize_backup_id sha key ≡ strip_known_extensions key
  unfolding sanitize_backup_id
  id_of_kept key h = rw h (sym (kept_stripped key h))

  id_of_hashed :
      (key : Bytes)
      → is_kept key ≡ false
      → EndsHashed (sanitize_backup_id sha key) (hash_suffix sha key)
  unfolding sanitize_backup_id hashed_id
  id_of_hashed key h =
      (take (max_backup_id_len - length (hash_suffix sha key) - 1) (sanitized_key key), rw h)

  hashed_alike :
      (k j : Bytes)
      → sanitize_backup_id sha k ≡ sanitize_backup_id sha j
      → is_kept k ≡ false
      → is_kept j ≡ false
      → hash_suffix sha k ≡ hash_suffix sha j
  hashed_alike k j e hk hj =
      let (p, ep) = id_of_hashed k hk in
      let (q, eq) = id_of_hashed j hj in
      let l = length-hash_suffix sha k ∙ sym (length-hash_suffix sha j) in
      let r =
        append_cancel_right p q (b'-' ∷ hash_suffix sha k) (b'-' ∷ hash_suffix sha j) (ap suc l)
          (sym ep ∙ e ∙ eq) in
      cc r

  -- Two keys have one backup id only if they are one text once a known archive extension is
  -- taken off, or their SHA-256 sums agree in the first four bytes (eight digits), or one of
  -- them, without its extension, is spelled like the hashed id of the other: it ends in a dash
  -- and the eight digits of the other's sum.
  pub sanitize_backup_id_collision :
      (k j : Bytes)
      → sanitize_backup_id sha k ≡ sanitize_backup_id sha j
      → (strip_known_extensions k ≡ strip_known_extensions j)
        ⊎ (hash_suffix sha k ≡ hash_suffix sha j)
        ⊎ EndsHashed (strip_known_extensions k) (hash_suffix sha j)
        ⊎ EndsHashed (strip_known_extensions j) (hash_suffix sha k)
  sanitize_backup_id_collision k j e = elim (Bool-cases (is_kept k)) [
    | inl hk ↦ elim (Bool-cases (is_kept j)) [
      | inl hj ↦ inl (sym (id_of_kept k hk) ∙ e ∙ id_of_kept j hj)
      | inr hj ↦
          let (p, ep) = id_of_hashed j hj in inr (inr (inl (p, sym (id_of_kept k hk) ∙ e ∙ ep)))
    ]
    | inr hk ↦ elim (Bool-cases (is_kept j)) [
      | inl hj ↦
          let (p, ep) = id_of_hashed k hk in inr (inr (inr (p, sym (id_of_kept j hj) ∙ sym e ∙ ep)))
      | inr hj ↦ inr (inl (hashed_alike k j e hk hj))
    ]
  ]

  -- Keys whose first path segment is the same, such as the backups of one server, are in one
  -- backup group, which is named for that segment alone.
  pub group_id_from_key_segment :
      (key segment : Bytes) (rest : List Bytes)
      → split b'/' key ≡ segment ∷ rest
      → group_id_from_key sha key ≡ sanitize_backup_id sha segment
  unfolding group_id_from_key
  group_id_from_key_segment key segment rest h =
      let (ps, e) = split-segment b'/' key in ap (sanitize_backup_id sha) (cc (e, h))
