-- ===== src/Stage/Gc.antt =====
-- internal/stage/gc.go: the sweep of abandoned uploads, and what is removed as the bridge starts.
pub mod Outside
pub mod Chosen
pub mod Live
pub mod Stale
pub mod Orphans
pub mod Tests
use pterodactyl_proxmox_back.Prelude.{
  ℤ, Bool, false, not, ◌||◌, List, [], ◌∷◌, if◌then◌else◌, Bytes, codes,
}
use pterodactyl_proxmox_back.Disk.{OsError, Disk, join_path, remove_all, Entry, read_dir}
use pterodactyl_proxmox_back.Stage.{remove_upload_dir}
use pterodactyl_proxmox_back.Prelude.Result.{Result, ok, err}
use pterodactyl_proxmox_back.Prelude.Int.{◌-ℤ◌}
use pterodactyl_proxmox_back.Bolt.{Bolt}
use pterodactyl_proxmox_back.Store.{StoreError, Json, Db}
use pterodactyl_proxmox_back.Store.Multipart.{
  MultipartUpload, delete_upload, list_all_upload_ids, list_uploads_older_than,
}
use pterodactyl_proxmox_back.Strings.{eq_bytes}

abbrev pub is_known : Bytes → List Bytes → Bool
is_known name [] = false
is_known name (id ∷ ids) = eq_bytes id name || is_known name ids

-- the loop over the entries of the scratch directory
unfoldable pub remove_orphans : Bytes → List Bytes → List Entry → Disk → Disk
remove_orphans multipart_root known [] d = d
remove_orphans multipart_root known ((name, is_dir) ∷ entries) d =
    remove_orphans multipart_root known entries (
      if not is_dir || is_known name known
      then d
      else (remove_all (join_path multipart_root name) d).1)

abbrev reconciled : Bytes → List Bytes → Result OsError (List Entry) × Disk → Disk
reconciled multipart_root known (err e, d) = d
reconciled multipart_root known (ok entries, d) = remove_orphans multipart_root known entries d

-- the database and the scratch disk
module _ (bolt : Bolt) where
  abbrev pub Kept : Type 0
  Kept = Db bolt × Disk

  -- one turn of the loop of sweep: neither error ends it
  unfoldable pub remove_upload : Bytes → Bytes → Kept → Kept
  remove_upload root upload_id (db, d) =
      ((delete_upload bolt upload_id db).1, (remove_upload_dir root upload_id d).1)

  unfoldable pub remove_uploads : Bytes → List MultipartUpload → Kept → Kept
  remove_uploads root [] kept = kept
  remove_uploads root (u ∷ us) kept = remove_uploads root us (remove_upload root u.upload_id kept)

  unfoldable pub reconcile_on_startup : Bytes → Kept → Kept
  reconcile_on_startup root (db, d) =
      let multipart_root = join_path root (codes "multipart") in
      (db, reconciled multipart_root (list_all_upload_ids bolt db) (read_dir multipart_root d))

module _ (bolt : Bolt) (json : Json MultipartUpload) where
  abbrev swept : Bytes → Result StoreError (List MultipartUpload) → Kept bolt → Kept bolt
  swept root (err e) kept = kept
  swept root (ok uploads) kept = remove_uploads bolt root uploads kept

  -- the sweep at a time, of the uploads that were last active longer ago than `ttl`
  unfoldable pub sweep : Bytes → ℤ → ℤ → Kept bolt → Kept bolt
  sweep root ttl now kept = swept root (list_uploads_older_than bolt json (now -ℤ ttl) kept.0) kept

  -- Run: what is done at the start, and then at each tick
  unfoldable pub run_ticks : Bytes → ℤ → List ℤ → Kept bolt → Kept bolt
  run_ticks root ttl [] kept = kept
  run_ticks root ttl (now ∷ ticks) kept = run_ticks root ttl ticks (sweep root ttl now kept)

  unfoldable pub run_gc : Bytes → ℤ → List ℤ → Kept bolt → Kept bolt
  run_gc root ttl ticks kept = run_ticks root ttl ticks (reconcile_on_startup bolt root kept)
