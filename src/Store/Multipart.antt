-- ===== src/Store/Multipart.antt =====
-- internal/store/multipart.go: the uploads in progress and their parts.
pub mod Uploads
pub mod Scan
pub mod Cascade
pub mod Parts
pub mod Tests
use pterodactyl_proxmox_back.Prelude.{
  ℤ, ℕ, Bool, ◌&&◌, Option, none, some, List, [], ◌∷◌, ◌++◌, map, if◌then◌else◌, Bytes,
}
use pterodactyl_proxmox_back.Prelude.Int.{ltb_ℤ}
use pterodactyl_proxmox_back.Bolt.{Bolt}
use pterodactyl_proxmox_back.Bolt.Lists.{lookup}
use pterodactyl_proxmox_back.Bolt.Scan.{seek}
use pterodactyl_proxmox_back.Prelude.Result.{Result, ok, err, ◌>>=◌, ◌>>◌, or_err}
use pterodactyl_proxmox_back.Store.{
  StoreError, not_found, marshal_failed, unmarshal_failed, Json, Db, Outcome, update, put_in,
}
use pterodactyl_proxmox_back.Store.Keys.{part_key}
use pterodactyl_proxmox_back.Strings.{eq_bytes, has_prefix}

pub record MultipartUpload : Type 0 where
  pub upload_id : Bytes
  pub bucket : Bytes
  pub key : Bytes
  pub namespace : Bytes
  pub initiated_at : ℤ
  pub last_activity_at : ℤ

pub record PartInfo : Type 0 where
  pub part_number : ℤ
  pub etag : Bytes
  pub size : ℤ
  pub temp_path : Bytes
  pub uploaded_at : ℕ

abbrev pub Pairs : Type 0
Pairs = List (Bytes × Bytes)

-- the prefix of an upload's part keys
abbrev pub parts_of : Bytes → Bytes
parts_of upload_id = upload_id ++ (b'/' ∷ [])

-- the keys that the loop over the cursor gathers
unfoldable pub gather_keys : Bytes → Pairs → List Bytes
gather_keys prefix [] = []
gather_keys prefix ((k, v) ∷ l) =
    let rest = gather_keys prefix l in if has_prefix k prefix then k ∷ rest else []

module _ (bolt : Bolt) where
  unfoldable pub delete_keys : List Bytes → bolt.Bucket → bolt.Bucket
  delete_keys [] b = b
  delete_keys (k ∷ ks) b = delete_keys ks (bolt.delete k b)

  abbrev delete_upload_found : Bytes → Db bolt → Option Bytes → Result StoreError (Db bolt)
  delete_upload_found upload_id d none = err not_found
  delete_upload_found upload_id d (some v) =
      let prefix = parts_of upload_id in
      let keys = gather_keys prefix (seek prefix (bolt.pairs d.multipart_parts)) in
      ok (record d {
        multipart_uploads = bolt.delete upload_id d.multipart_uploads;
        multipart_parts = delete_keys keys d.multipart_parts;
      })

  unfoldable pub delete_upload_tx : Bytes → Db bolt → Result StoreError (Db bolt)
  delete_upload_tx upload_id d =
      delete_upload_found upload_id d (lookup upload_id (bolt.pairs d.multipart_uploads))

  unfoldable pub delete_upload : Bytes → Db bolt → Outcome bolt
  delete_upload upload_id = update bolt (delete_upload_tx upload_id)

  unfoldable pub list_all_upload_ids : Db bolt → List Bytes
  list_all_upload_ids db = map (λ e. e.0) (bolt.pairs db.multipart_uploads)

module _ (bolt : Bolt) (json : Json MultipartUpload) where
  unfoldable pub put_upload_tx : Bytes → Bytes → Db bolt → Result StoreError (Db bolt)
  put_upload_tx upload_id v d =
      put_in bolt upload_id v d.multipart_uploads >>= λ b. ok (record d { multipart_uploads = b })

  unfoldable pub create_upload : MultipartUpload → Db bolt → Outcome bolt
  create_upload u db = elim (json.marshal u) [
    | none ↦ (err marshal_failed, db)
    | some v ↦ update bolt (put_upload_tx u.upload_id v) db
  ]

  unfoldable pub get_upload : Bytes → Db bolt → Result StoreError MultipartUpload
  get_upload upload_id db = do
    v ← or_err (lookup upload_id (bolt.pairs db.multipart_uploads)) not_found
    or_err (json.unmarshal v) unmarshal_failed

  unfoldable pub touch_tx : Bytes → ℤ → Db bolt → Result StoreError (Db bolt)
  touch_tx upload_id t d = do
    v ← or_err (lookup upload_id (bolt.pairs d.multipart_uploads)) not_found
    u ← or_err (json.unmarshal v) unmarshal_failed
    w ← or_err (json.marshal (record u { last_activity_at = t })) marshal_failed
    put_upload_tx upload_id w d

  unfoldable pub touch_upload : Bytes → ℤ → Db bolt → Outcome bolt
  touch_upload upload_id t = update bolt (touch_tx upload_id t)

  -- ForEach with a test
  unfoldable pub uploads_where :
      (MultipartUpload → Bool) → Pairs → Result StoreError (List MultipartUpload)
  uploads_where test [] = ok []
  uploads_where test ((k, v) ∷ l) = or_err (json.unmarshal v) unmarshal_failed >>= λ u.
      uploads_where test l >>= λ us. ok (if test u then u ∷ us else us)

  unfoldable pub list_uploads_older_than : ℤ → Db bolt → Result StoreError (List MultipartUpload)
  list_uploads_older_than cutoff db =
      uploads_where (λ u. ltb_ℤ u.last_activity_at cutoff) (bolt.pairs db.multipart_uploads)

  unfoldable pub find_uploads_by_bucket_key :
      Bytes → Bytes → Db bolt → Result StoreError (List MultipartUpload)
  find_uploads_by_bucket_key bucket key db =
      uploads_where (λ u. eq_bytes u.bucket bucket && eq_bytes u.key key)
        (bolt.pairs db.multipart_uploads)

module _ (bolt : Bolt) (json : Json PartInfo) where
  unfoldable pub put_part_tx : Bytes → Bytes → Db bolt → Result StoreError (Db bolt)
  put_part_tx k v d =
      put_in bolt k v d.multipart_parts >>= λ b. ok (record d { multipart_parts = b })

  unfoldable pub put_part : Bytes → PartInfo → Db bolt → Outcome bolt
  put_part upload_id p db = elim (json.marshal p) [
    | none ↦ (err marshal_failed, db)
    | some v ↦ update bolt (put_part_tx (part_key upload_id p.part_number) v) db
  ]

  -- the loop over the cursor
  unfoldable pub read_parts : Bytes → Pairs → Result StoreError (List PartInfo)
  read_parts prefix [] = ok []
  read_parts prefix ((k, v) ∷ l) =
      let taken = or_err (json.unmarshal v) unmarshal_failed >>= λ p.
      read_parts prefix l >>= λ ps. ok (p ∷ ps) in
      if has_prefix k prefix then taken else ok []

  unfoldable pub list_parts : Bytes → Db bolt → Result StoreError (List PartInfo)
  list_parts upload_id db =
      let prefix = parts_of upload_id in
      read_parts prefix (seek prefix (bolt.pairs db.multipart_parts))
