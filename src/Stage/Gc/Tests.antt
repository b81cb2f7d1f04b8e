-- ===== src/Stage/Gc/Tests.antt =====
-- Two uploads, one of them stale, and the theorems at them.
use pterodactyl_proxmox_back.Prelude.{pos, ℕ, ◌≡◌, refl, Option, some, List, [], ◌∷◌, codes}
use pterodactyl_proxmox_back.Prelude.Int.{◌-ℤ◌}
use pterodactyl_proxmox_back.Samples.{toy_bolt}
use pterodactyl_proxmox_back.Disk.{
  Disk, file, join_path, dirs_outside, remove_all, child_name, file_entries, dir_entries, read_dir,
}
use pterodactyl_proxmox_back.Stage.{upload_dir}
use pterodactyl_proxmox_back.Stage.Gc.{remove_orphans, Kept, reconcile_on_startup, sweep}
use pterodactyl_proxmox_back.Stage.Gc.Chosen.{Named}
use pterodactyl_proxmox_back.Stage.Gc.Live.{KeptAs, sweep-KeptAs}
use pterodactyl_proxmox_back.Stage.Gc.Stale.{Gone, sweep-Gone}
use pterodactyl_proxmox_back.Stage.Gc.Orphans.{reconcile_on_startup-known}
use pterodactyl_proxmox_back.Strings.{eq_bytes, has_prefix, cut}
use pterodactyl_proxmox_back.Bolt.Lists.{lookup}
use pterodactyl_proxmox_back.Store.Multipart.{list_all_upload_ids}
use pterodactyl_proxmox_back.Store.Multipart.Uploads.{Records}
use pterodactyl_proxmox_back.Store.Multipart.Tests.{
  upload, json, json_part, uploads, stored, a-NoByte, b-NoByte,
}

-- the disk has a file of each upload, and a directory that belongs to none
abbrev scratch : List (Option ℕ) → Disk
scratch faults = record {
  files = (codes "r/multipart/a/f", codes "x") ∷ (codes "r/multipart/b/f", codes "y") ∷ [];
  dirs =
      codes "r/multipart"
      ∷ codes "r/multipart/a"
      ∷ codes "r/multipart/b"
      ∷ codes "r/multipart/c"
      ∷ [];
  faults = faults;
  drawn = [];
}

-- the removal of a directory is to fail
abbrev shaky : Kept toy_bolt
shaky = (stored, scratch (some 0 ∷ []))

abbrev steady : Kept toy_bolt
steady = (stored, scratch [])

uploads-Records : Records toy_bolt json uploads (upload (codes "a") 7 ∷ upload (codes "b") 9 ∷ [])
uploads-Records = (refl, (refl, tt))

uploads-Named : Named uploads (upload (codes "a") 7 ∷ upload (codes "b") 9 ∷ [])
uploads-Named = (refl, a-NoByte, (refl, b-NoByte, tt))

-- at the time 10, an upload is stale that was last active before 8
sweep-KeptAs_example :
    KeptAs toy_bolt json json_part
      (codes "r")
      (codes "b")
      shaky
      (sweep toy_bolt json (codes "r") (pos 2) (pos 10) shaky)
unfolding lookup eq_bytes ◌-ℤ◌
sweep-KeptAs_example =
    sweep-KeptAs toy_bolt json json_part (codes "r") (codes "b") (9 ∷ codes "b") (pos 2) (pos 10)
      shaky (upload (codes "a") 7 ∷ upload (codes "b") 9 ∷ []) (upload (codes "b") 9)
      uploads-Records uploads-Named b-NoByte refl refl refl

sweep-Gone_example :
    Gone toy_bolt json json_part
      (codes "r")
      (codes "a")
      (sweep toy_bolt json (codes "r") (pos 2) (pos 10) steady)
unfolding lookup eq_bytes ◌-ℤ◌
sweep-Gone_example =
    sweep-Gone toy_bolt json json_part (codes "r") (codes "a") (7 ∷ codes "a") (pos 2) (pos 10)
      steady (upload (codes "a") 7 ∷ upload (codes "b") 9 ∷ []) (upload (codes "a") 7)
      uploads-Records uploads-Named a-NoByte refl refl refl (refl, refl)

reconcile_on_startup-known_example :
    (file (codes "r/multipart/b/f") ((reconcile_on_startup toy_bolt (codes "r") steady).1)
      ≡ file (codes "r/multipart/b/f") steady.1)
    × ((reconcile_on_startup toy_bolt (codes "r") steady).0 ≡ stored)
unfolding list_all_upload_ids eq_bytes has_prefix join_path upload_dir
reconcile_on_startup-known_example =
    reconcile_on_startup-known toy_bolt (codes "r") (codes "b") (codes "r/multipart/b/f") steady
      b-NoByte refl refl

-- the directory of `c` is removed, and the others stay
reconciled_dirs :
    ((reconcile_on_startup toy_bolt (codes "r") steady).1).dirs
    ≡ codes "r/multipart" ∷ codes "r/multipart/a" ∷ codes "r/multipart/b" ∷ []
unfolding reconcile_on_startup read_dir remove_orphans dir_entries file_entries child_name
    remove_all dirs_outside list_all_upload_ids eq_bytes has_prefix join_path cut
reconciled_dirs = refl
