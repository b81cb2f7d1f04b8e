-- ===== src/Backend/Objects.antt =====
-- internal/backend/backend.go: the operations on one object.
use pterodactyl_proxmox_back.Prelude.{
  ℤ, pos, ℕ, Option, none, some, List, [], ◌∷◌, ◌++◌, if◌then◌else◌, Bytes, codes, take, drop,
}
use pterodactyl_proxmox_back.Prelude.Steps.{◌>>=◌, ◌>>◌, return, fail, attempt}
use pterodactyl_proxmox_back.Prelude.Int.{pos_part, ◌+ℤ◌, ◌-ℤ◌, ltb_ℤ}
use pterodactyl_proxmox_back.Store.Objects.{
  ObjectMapping, put_object_mapping, get_object_mapping, delete_object_mapping,
}
use pterodactyl_proxmox_back.Store.Multipart.{MultipartUpload, find_uploads_by_bucket_key}
use pterodactyl_proxmox_back.Disk.{open_file, remove}
use pterodactyl_proxmox_back.Pbs.Client.{backup, restore, forget, update_notes}
use pterodactyl_proxmox_back.Pbs.Stream.{restore_stream}
use pterodactyl_proxmox_back.Pbs.Time.{unix, from_unix}
use pterodactyl_proxmox_back.IdMap.{group_id_from_key, sanitize_namespace}
use pterodactyl_proxmox_back.S3Api.{ObjectInfo, RangeSpec, err_not_found, other_failure, Stream}
use pterodactyl_proxmox_back.Stage.{temp_file_path, write_to_temp}
use pterodactyl_proxmox_back.Backend.{
  cli_of, Engine, Step, now, on_pbs, on_disk, map_not_found, unmapped, on_db, from_db, find_mapping,
  cleanup_upload,
}

abbrev pub info_of_mapping : Bytes → ObjectMapping → ObjectInfo
info_of_mapping key m = record {
  key = key;
  size = m.size;
  etag = m.etag;
  last_modified = m.updated_at;
}

module _ (g : Engine) where
  -- the snapshot of a mapping is forgotten
  unfoldable pub forget_mapping : ObjectMapping → Step g (Unit {0})
  forget_mapping m = on_pbs g (
      forget (cli_of g.host) g.environ g.client m.pbs_backup_type m.pbs_backup_id
        (from_unix m.pbs_backup_time) m.namespace)

  abbrev pub new_mapping : Bytes → Bytes → ℤ → Bytes → ℕ → ℕ → ObjectMapping
  new_mapping bucket key size etag used updated = record {
    bucket = bucket;
    key = key;
    namespace = sanitize_namespace bucket;
    pbs_backup_type = g.backup_type;
    pbs_backup_id = group_id_from_key g.sha key;
    pbs_backup_time = unix used;
    size = size;
    etag = etag;
    updated_at = updated;
  }

  unfoldable pub forget_old : Option ObjectMapping → Step g (Unit {0})
  forget_old none = return tt
  forget_old (some old) = attempt (forget_mapping old) >>= λ _. return tt

  -- the snapshot is made, and the file is then not needed any more
  unfoldable pub back_up : Bytes → Bytes → Bytes → Step g ℕ
  back_up bucket key path = do
    t ← now g
    used ← on_pbs g (
        backup (cli_of g.host) g.environ g.client path g.backup_type (group_id_from_key g.sha key) t
          (sanitize_namespace bucket))
    _ ← attempt (on_disk g (remove path))
    _ ← attempt (
        on_pbs g (
          update_notes (cli_of g.host) g.environ g.client g.backup_type
            (group_id_from_key g.sha key) used (sanitize_namespace bucket)
            (bucket ++ (b'/' ∷ key))))
    return used

  -- the key is pointed at the snapshot, and only then the old one is forgotten
  unfoldable pub point_at : Bytes → Bytes → ℤ → Bytes → ℕ → Step g ObjectInfo
  point_at bucket key size etag used = do
    old ← find_mapping g bucket key
    updated ← now g
    let m = new_mapping bucket key size etag used updated in
        do
          on_db g (unmapped g) (put_object_mapping g.bolt g.object_json m)
          forget_old old
          return (info_of_mapping key m)

  unfoldable pub commit_object_locked : Bytes → Bytes → Bytes → ℤ → Bytes → Step g ObjectInfo
  commit_object_locked bucket key path size etag = do
    used ← back_up bucket key path
    point_at bucket key size etag used

  unfoldable pub put_object : Bytes → Bytes → Stream → Step g ObjectInfo
  put_object bucket key body = do
    r ← on_disk g (write_to_temp g.md5_sum g.root (codes "puts") (codes "put-*.tmp") body)
    commit_object_locked bucket key r.path r.size r.md5

  -- the bytes that a limited reader gives after a seek
  abbrev pub sliced : RangeSpec → Bytes → Bytes
  sliced r content = take (pos_part (r.end_ -ℤ r.start +ℤ pos 1)) (drop (pos_part r.start) content)

  -- what is read of a file that is removed when it is closed; a seek before the start fails
  unfoldable pub read_range : RangeSpec → Bytes → Step g Bytes
  read_range r path = do
    content ← on_disk g (open_file path)
    _ ← attempt (on_disk g (remove path))
    if ltb_ℤ r.start (pos 0) then fail other_failure else return (sliced r content)

  abbrev pub content_at : ObjectMapping → Option RangeSpec → Step g Bytes
  content_at m none = on_pbs g (
      restore_stream (cli_of g.host) g.environ g.client m.pbs_backup_type m.pbs_backup_id
        (from_unix m.pbs_backup_time) m.namespace)
  content_at m (some r) = do
    path ← on_disk g (temp_file_path g.root (codes "gets") (codes "get-*.tmp"))
    on_pbs g (
        restore (cli_of g.host) g.environ g.client m.pbs_backup_type m.pbs_backup_id
          (from_unix m.pbs_backup_time) m.namespace path)
    read_range r path

  unfoldable pub get_object : Bytes → Bytes → Option RangeSpec → Step g (Bytes × ObjectInfo)
  get_object bucket key range = do
    m ← from_db g (map_not_found g) (get_object_mapping g.bolt g.object_json bucket key)
    content ← content_at m range
    return (content, info_of_mapping key m)

  unfoldable pub head_object : Bytes → Bytes → Step g ObjectInfo
  head_object bucket key = do
    m ← from_db g (map_not_found g) (get_object_mapping g.bolt g.object_json bucket key)
    return (info_of_mapping key m)

  unfoldable pub cleanup_uploads : List MultipartUpload → Step g (Unit {0})
  cleanup_uploads [] = return tt
  cleanup_uploads (u ∷ us) = do cleanup_upload g u.upload_id; cleanup_uploads us

  unfoldable pub abort_matching_uploads : Bytes → Bytes → Step g (Unit {0})
  abort_matching_uploads bucket key = do
    us ← from_db g (unmapped g) (find_uploads_by_bucket_key g.bolt g.upload_json bucket key)
    cleanup_uploads us
    fail err_not_found

  abbrev pub delete_found : Bytes → Bytes → Option ObjectMapping → Step g (Unit {0})
  delete_found bucket key none = abort_matching_uploads bucket key
  delete_found bucket key (some m) = do
    forget_mapping m
    on_db g (map_not_found g) (delete_object_mapping g.bolt g.object_json bucket key)

  unfoldable pub delete_object : Bytes → Bytes → Step g (Unit {0})
  delete_object bucket key = do m ← find_mapping g bucket key; delete_found bucket key m
