-- ===== src/Backend/Listing.antt =====
-- internal/backend/backend.go: the listing of objects, with the keys beyond a delimiter grouped.
use pterodactyl_proxmox_back.Prelude.{
  ℤ, pos, ℕ, suc, ◌+◌, Bool, true, false, ◌||◌, Option, none, some, List, [], ◌∷◌, ◌++◌,
  if◌then◌else◌, Bytes, length, take, drop,
}
use pterodactyl_proxmox_back.Prelude.Steps.{◌>>=◌, return}
use pterodactyl_proxmox_back.Prelude.Int.{pos_part, ◌*ℤ◌, ltb_ℤ}
use pterodactyl_proxmox_back.Store.Objects.{ObjectMapping, list_objects}
use pterodactyl_proxmox_back.S3Api.{ObjectInfo}
use pterodactyl_proxmox_back.Strings.{eq_bytes, has_prefix}
use pterodactyl_proxmox_back.Backend.{Engine, Step, unmapped, from_db}
use pterodactyl_proxmox_back.Backend.Objects.{info_of_mapping}

-- indexOf
unfoldable pub index_of : Bytes → Bytes → Option ℕ
index_of [] substr = if has_prefix [] substr then some 0 else none
index_of (c ∷ s) substr =
    let rest : Option ℕ = index_of s substr in
    if has_prefix (c ∷ s) substr then some 0 else elim rest [ none ↦ none | some i ↦ some (suc i) ]

-- the common prefix that a key belongs to
unfoldable pub common_prefix : Bytes → Bytes → Bytes → Option Bytes
common_prefix prefix delimiter key =
    let rest = drop (length prefix) key in
    if eq_bytes delimiter [] then none else elim (index_of rest delimiter) [
      | none ↦ none
      | some i ↦ some (prefix ++ take (i + length delimiter) rest)
    ]

abbrev pub is_seen : Bytes → List Bytes → Bool
is_seen p [] = false
is_seen p (q ∷ qs) = eq_bytes q p || is_seen p qs

abbrev pub Grouped : Type 0
Grouped = List ObjectInfo × List Bytes × Bool

abbrev pub with_object : ObjectInfo → Grouped → Grouped
with_object o (objects, prefixes, truncated) = (o ∷ objects, prefixes, truncated)

abbrev pub with_common_prefix : Bytes → Grouped → Grouped
with_common_prefix p (objects, prefixes, truncated) = (objects, p ∷ prefixes, truncated)

-- The loop over the mappings, where `seen` are the common prefixes and `count` is how many objects
-- and prefixes there are.
unfoldable pub group : Bytes → Bytes → ℤ → Bool → List Bytes → ℕ → List ObjectMapping → Grouped
group prefix delimiter max_keys truncated seen count [] = ([], [], truncated)
group prefix delimiter max_keys truncated seen count (m ∷ ms) =
    let same = group prefix delimiter max_keys truncated seen count ms in
    let one_more = group prefix delimiter max_keys truncated seen (suc count) ms in
    elim (common_prefix prefix delimiter m.key) [
      | some p ↦
          let further = group prefix delimiter max_keys truncated (p ∷ seen) (suc count) ms in
          if is_seen p seen then same else with_common_prefix p further
      | none ↦
          if ltb_ℤ (pos count) max_keys
          then with_object (info_of_mapping m.key m) one_more
          else ([], [], true)
    ]

module _ (g : Engine) where
  -- more mappings are fetched than can be listed, for the grouping
  unfoldable pub list_grouped : Bytes → Bytes → Bytes → Bytes → ℤ → Step g Grouped
  list_grouped bucket prefix delimiter start_after max_keys = do
    (ms, truncated) ←
        from_db g (unmapped g) (
          list_objects g.bolt g.object_json bucket prefix start_after
            (pos_part (max_keys *ℤ pos 4)))
    return (group prefix delimiter max_keys truncated [] 0 ms)
