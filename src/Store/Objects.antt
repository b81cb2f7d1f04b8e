-- ===== src/Store/Objects.antt =====
-- internal/store/objects.go: the mappings of bucket and key to PBS coordinates.
pub mod Laws
pub mod Deletes
pub mod Listing
pub mod Tests
use pterodactyl_proxmox_back.Prelude.{
  ℤ, ℕ, ◌-◌, Bool, true, false, not, Option, none, some, List, [], ◌∷◌, ◌==◌, if◌then◌else◌, Bytes,
}
use pterodactyl_proxmox_back.Strings.{lt_bytes, has_prefix}
use pterodactyl_proxmox_back.Bolt.{Bolt}
use pterodactyl_proxmox_back.Bolt.Lists.{lookup}
use pterodactyl_proxmox_back.Bolt.Scan.{seek}
use pterodactyl_proxmox_back.Prelude.Result.{Result, ok, err, ◌>>=◌, ◌>>◌, or_err}
use pterodactyl_proxmox_back.Store.{
  StoreError, not_found, marshal_failed, unmarshal_failed, Json, Db, Outcome, update, put_in,
}
use pterodactyl_proxmox_back.Store.Keys.{object_map_key}

pub record ObjectMapping : Type 0 where
  pub bucket : Bytes
  pub key : Bytes
  pub namespace : Bytes
  pub pbs_backup_type : Bytes
  pub pbs_backup_id : Bytes
  pub pbs_backup_time : ℤ
  pub size : ℤ
  pub etag : Bytes
  pub updated_at : ℕ

abbrev pub start_after_key : Bytes → Bytes → Option Bytes
start_after_key bucket [] = none
start_after_key bucket (c ∷ s) = some (object_map_key bucket (c ∷ s))

-- `startAfterKey != nil && bytes.Compare(k, startAfterKey) <= 0`
unfoldable pub is_skipped : Option Bytes → Bytes → Bool
is_skipped none k = false
is_skipped (some after) k = not (lt_bytes after k)

module _ (bolt : Bolt) (json : Json ObjectMapping) where
  abbrev delete_found : Bytes → Db bolt → Option Bytes → Result StoreError (Db bolt)
  delete_found k d none = err not_found
  delete_found k d (some v) = ok (record d { objects = bolt.delete k d.objects })

  -- the transactions' bodies
  unfoldable pub put_tx : ObjectMapping → Bytes → Db bolt → Result StoreError (Db bolt)
  put_tx m v d =
      put_in bolt (object_map_key m.bucket m.key) v d.objects >>= λ o. ok (record d { objects = o })

  unfoldable pub delete_tx : Bytes → Bytes → Db bolt → Result StoreError (Db bolt)
  delete_tx bucket key d =
      let k = object_map_key bucket key in delete_found k d (lookup k (bolt.pairs d.objects))

  unfoldable pub put_object_mapping : ObjectMapping → Db bolt → Outcome bolt
  put_object_mapping m db = elim (json.marshal m) [
    | none ↦ (err marshal_failed, db)
    | some v ↦ update bolt (put_tx m v) db
  ]

  unfoldable pub get_object_mapping : Bytes → Bytes → Db bolt → Result StoreError ObjectMapping
  get_object_mapping bucket key db = do
    v ← or_err (lookup (object_map_key bucket key) (bolt.pairs db.objects)) not_found
    or_err (json.unmarshal v) unmarshal_failed

  unfoldable pub delete_object_mapping : Bytes → Bytes → Db bolt → Outcome bolt
  delete_object_mapping bucket key = update bolt (delete_tx bucket key)

  -- the loop over the cursor, with room for `room` more mappings
  unfoldable pub list_loop :
      Bytes
      → Option Bytes
      → ℕ
      → List (Bytes × Bytes)
      → Result StoreError (List ObjectMapping × Bool)
  unfolding is_skipped
  list_loop prefix after room [] = ok ([], false)
  list_loop prefix after room ((k, v) ∷ l) =
      let skipped = list_loop prefix after room l in
      let taken = or_err (json.unmarshal v) unmarshal_failed >>= λ m.
      list_loop prefix after (room - 1) l >>= λ (ms, truncated). ok (m ∷ ms, truncated) in
      if not (has_prefix k prefix)
      then ok ([], false)
      else if is_skipped after k
      then skipped
      else if room == 0
      then ok ([], true)
      else taken

  -- the mappings, and whether there are more
  unfoldable pub list_objects :
      Bytes → Bytes → Bytes → ℕ → Db bolt → Result StoreError (List ObjectMapping × Bool)
  list_objects bucket prefix start_after max_keys db =
      let prefix_bytes = object_map_key bucket prefix in
      list_loop prefix_bytes (start_after_key bucket start_after) max_keys
        (seek prefix_bytes (bolt.pairs db.objects))
