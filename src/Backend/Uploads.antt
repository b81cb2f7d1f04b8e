-- ===== src/Backend/Uploads.antt =====
-- internal/backend/backend.go: multipart uploads.
use pterodactyl_proxmox_back.Prelude.{
  ℤ, pos, ◌&&◌, Option, none, some, List, [], ◌∷◌, map, if◌then◌else◌, Bytes,
}
use pterodactyl_proxmox_back.Prelude.Steps.{◌>>=◌, ◌>>◌, return, fail, attempt, or_clean}
use pterodactyl_proxmox_back.Prelude.Int.{ltb_ℤ, eq_ℤ}
use pterodactyl_proxmox_back.Store.Multipart.{
  MultipartUpload, PartInfo, delete_upload, create_upload, get_upload, touch_upload, put_part,
  list_parts,
}
use pterodactyl_proxmox_back.IdMap.{sanitize_namespace}
use pterodactyl_proxmox_back.S3Api.{ObjectInfo, Part, other_failure, Stream}
use pterodactyl_proxmox_back.Strings.{eq_bytes}
use pterodactyl_proxmox_back.Strings.Hex.{hex}
use pterodactyl_proxmox_back.Stage.{remove_upload_dir, concat_parts, write_part}
use pterodactyl_proxmox_back.Backend.{
  Engine, Step, now, draw, on_disk, map_not_found, unmapped, on_db, from_db, cleanup_upload,
}
use pterodactyl_proxmox_back.Backend.Objects.{commit_object_locked}

-- the map from part numbers to stored parts: of two with a number, the later one
unfoldable pub stored_part : ℤ → List PartInfo → Option PartInfo
stored_part n [] = none
stored_part n (p ∷ ps) = elim (stored_part n ps) [
  | some q ↦ some q
  | none ↦ if eq_ℤ p.part_number n then some p else none
]

-- the paths of the parts that a client has listed after the number `prev`, unless one is out of
-- order, was never uploaded, or has another ETag
unfoldable pub listed_paths : List PartInfo → ℤ → List Part → Option (List Bytes)
listed_paths stored prev [] = some []
listed_paths stored prev (p ∷ ps) =
    let rest = listed_paths stored p.part_number ps in
    elim (stored_part p.part_number stored) [
      | none ↦ none
      | some sp ↦
          if ltb_ℤ prev p.part_number && eq_bytes sp.etag p.etag
          then elim rest [ none ↦ none | some paths ↦ some (sp.temp_path ∷ paths) ]
          else none
    ]

abbrev pub part_of : PartInfo → Part
part_of p = record {
  part_number = p.part_number;
  etag = p.etag;
  size = p.size;
  last_modified = p.uploaded_at;
}

module _ (g : Engine) where
  -- newUploadID
  unfoldable pub new_upload_id : Step g Bytes
  new_upload_id = draw g >>= λ random. return (hex random)

  unfoldable pub create_multipart_upload : Bytes → Bytes → Step g Bytes
  create_multipart_upload bucket key = do
    upload_id ← new_upload_id
    t ← now g
    on_db g (unmapped g) (
        create_upload g.bolt g.upload_json (record {
          upload_id = upload_id;
          bucket = bucket;
          key = key;
          namespace = sanitize_namespace bucket;
          initiated_at = pos t;
          last_activity_at = pos t;
        }))
    return upload_id

  abbrev pub get_upload_step : Bytes → Step g MultipartUpload
  get_upload_step upload_id =
      from_db g (map_not_found g) (get_upload g.bolt g.upload_json upload_id)

  unfoldable pub upload_part : Bytes → Bytes → Bytes → ℤ → Stream → Step g Bytes
  upload_part bucket key upload_id n body = do
    _ ← get_upload_step upload_id
    r ← on_disk g (write_part g.md5_sum g.root upload_id n body)
    t ← now g
    on_db g (unmapped g) (
        put_part g.bolt g.part_json upload_id (record {
          part_number = n;
          etag = r.md5;
          size = r.size;
          temp_path = r.path;
          uploaded_at = t;
        }))
    active ← now g
    _ ← attempt (on_db g (unmapped g) (touch_upload g.bolt g.upload_json upload_id (pos active)))
    return r.md5

  unfoldable pub list_upload_parts : Bytes → Bytes → Bytes → Step g (List Part)
  list_upload_parts bucket key upload_id = do
    _ ← get_upload_step upload_id
    stored ← from_db g (unmapped g) (list_parts g.bolt g.part_json upload_id)
    return (map part_of stored)

  abbrev pub or_failure {ℓ} : {A : Type ℓ} → Option A → Step g A
  or_failure none = fail other_failure
  or_failure (some a) = return a

  abbrev pub not_empty : List Part → Step g (Unit {0})
  not_empty [] = fail other_failure
  not_empty (p ∷ ps) = return tt

  -- The object is committed at the bucket and key of the upload. A failure to concatenate gives
  -- the upload up, a failure to commit keeps it for another call.
  unfoldable pub complete_multipart_upload : Bytes → Bytes → Bytes → List Part → Step g ObjectInfo
  complete_multipart_upload bucket key upload_id parts = do
    upload ← get_upload_step upload_id
    stored ← from_db g (unmapped g) (list_parts g.bolt g.part_json upload_id)
    not_empty parts
    paths ← or_failure (listed_paths stored (pos 0) parts)
    r ←
        or_clean (on_disk g (concat_parts g.md5_sum g.root upload_id paths))
          (cleanup_upload g upload_id)
    info ← commit_object_locked g upload.bucket upload.key r.path r.size r.md5
    cleanup_upload g upload_id
    return info

  unfoldable pub abort_multipart_upload : Bytes → Bytes → Bytes → Step g (Unit {0})
  abort_multipart_upload bucket key upload_id = do
    _ ← get_upload_step upload_id
    on_disk g (remove_upload_dir g.root upload_id)
    on_db g (unmapped g) (delete_upload g.bolt upload_id)
