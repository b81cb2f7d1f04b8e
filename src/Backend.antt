-- ===== src/Backend.antt =====
-- internal/backend/backend.go: what the storage engine is made of, its state, and the steps that
-- its operations take. An operation that changes a key holds the key's lock from its first step to
-- its last, so that it is a function of the state here.
pub mod Objects
pub mod Uploads
pub mod Listing
pub mod Interface
pub mod Reads
pub mod Laws
pub mod Snapshots
pub mod Commit
pub mod Backed
pub mod Found
pub mod Put
pub mod Complete
pub mod Assembled
pub mod Invariant
pub mod Toy
pub mod Tests
use pterodactyl_proxmox_back.Prelude.{
  ℕ, suc, Bool, Option, none, some, List, [], if◌then◌else◌, Bytes, codes,
}
use pterodactyl_proxmox_back.Prelude.Steps.{Steps, ◌>>=◌, ◌>>◌, return, attempt}
use pterodactyl_proxmox_back.Prelude.Result.{Result, ok, err}
use pterodactyl_proxmox_back.Bolt.{Bolt}
use pterodactyl_proxmox_back.Store.{StoreError, not_found, Json, Db, Outcome}
use pterodactyl_proxmox_back.Store.Objects.{ObjectMapping, get_object_mapping}
use pterodactyl_proxmox_back.Store.Multipart.{MultipartUpload, PartInfo, delete_upload}
use pterodactyl_proxmox_back.Disk.{Disk, Action}
use pterodactyl_proxmox_back.Pbs.{PbsError, RunError, StreamStart}
use pterodactyl_proxmox_back.Pbs.Client.{Output, Cli, Client}
use pterodactyl_proxmox_back.IdMap.{Sha256}
use pterodactyl_proxmox_back.S3Api.{BackendError, err_not_found, other_failure}
use pterodactyl_proxmox_back.Strings.{eq_bytes}
use pterodactyl_proxmox_back.Stage.{remove_upload_dir}

-- What proxmox-backup-client acts on: the scratch disk, and a server.
pub record Host : Type 1 where
  pub Server : Type 0
  pub execute :
      Bytes → List Bytes → List Bytes → Disk × Server → (Output × Option RunError) × (Disk × Server)
  pub stream : Bytes → List Bytes → List Bytes → Disk × Server → StreamStart × (Disk × Server)
  pub wait : ℕ → Disk × Server → Bool × (Disk × Server)

abbrev pub cli_of : Host → Cli
cli_of host = record {
  World = Disk × host.Server;
  execute = host.execute;
  stream = host.stream;
  wait = host.wait;
}

-- what the engine is built with: the database, the JSON of its records, the hashes, the host with
-- its environment, the clock and the random bytes, the client and the configured names
pub record Engine : Type 1 where
  pub bolt : Bolt
  pub object_json : Json ObjectMapping
  pub upload_json : Json MultipartUpload
  pub part_json : Json PartInfo
  pub sha : Sha256
  pub md5_sum : Bytes → Bytes
  pub host : Host
  pub environ : List Bytes
  -- what the n-th call of time.Now and of rand.Read gives
  pub clock : ℕ → ℕ
  pub random : ℕ → Bytes
  pub client : Client
  pub backup_type : Bytes
  pub root : Bytes

-- New: the backup type has a default
unfoldable pub new_engine : Engine → Engine
new_engine g = record g {
  backup_type = if eq_bytes g.backup_type [] then codes "host" else g.backup_type;
}

module _ (g : Engine) where
  pub record State : Type 0 where
    pub db : Db g.bolt
    pub world : Disk × g.host.Server
    -- how often the clock was read, and random bytes were drawn
    pub ticks : ℕ
    pub draws : ℕ

  abbrev pub Step {ℓ} : Type ℓ → Type ℓ
  Step A = Steps BackendError State A

  -- time.Now
  unfoldable pub now : Step ℕ
  now s = (ok (g.clock s.ticks), record s { ticks = suc s.ticks })

  unfoldable pub draw : Step Bytes
  draw s = (ok (g.random s.draws), record s { draws = suc s.draws })

  -- an error that is neither of the sentinels
  abbrev pub as_failure {ε ℓ} : {E : Type ε} {A : Type ℓ} → Result E A → Result BackendError A
  as_failure (ok a) = ok a
  as_failure (err e) = err other_failure

  -- what a command does
  unfoldable pub on_pbs {ℓ} :
      {A : Type ℓ} → (Disk × g.host.Server → Result PbsError A × (Disk × g.host.Server)) → Step A
  on_pbs m s = (as_failure ((m s.world).0), record s { world = (m s.world).1 })

  unfoldable pub on_disk {ℓ} : {A : Type ℓ} → Action A → Step A
  on_disk m s = (as_failure ((m s.world.0).0), record s { world = ((m s.world.0).1, s.world.1) })

  -- mapNotFound
  unfoldable pub map_not_found : StoreError → BackendError
  map_not_found not_found = err_not_found
  map_not_found e = other_failure

  abbrev pub unmapped : StoreError → BackendError
  unmapped e = other_failure

  abbrev pub with_error {ℓ} :
      {A : Type ℓ} → (StoreError → BackendError) → Result StoreError A → Result BackendError A
  with_error f (ok a) = ok a
  with_error f (err e) = err (f e)

  -- a write and a read of the database, with what its error becomes
  unfoldable pub on_db :
      (StoreError → BackendError) → (Db g.bolt → Outcome g.bolt) → Step (Unit {0})
  on_db f m s = (with_error f ((m s.db).0), record s { db = (m s.db).1 })

  unfoldable pub from_db {ℓ} :
      {A : Type ℓ} → (StoreError → BackendError) → (Db g.bolt → Result StoreError A) → Step A
  from_db f m s = (with_error f (m s.db), s)

  -- a record that may be missing, where any other error is passed on
  abbrev pub or_missing {ℓ} : {A : Type ℓ} → Result StoreError A → Result BackendError (Option A)
  or_missing (ok a) = ok (some a)
  or_missing (err not_found) = ok none
  or_missing (err e) = err other_failure

  unfoldable pub find_mapping : Bytes → Bytes → Step (Option ObjectMapping)
  find_mapping bucket key s =
      (or_missing (get_object_mapping g.bolt g.object_json bucket key s.db), s)

  -- cleanupUpload, whose errors are only logged
  unfoldable pub cleanup_upload : Bytes → Step (Unit {0})
  cleanup_upload upload_id = do
    _ ← attempt (on_disk (remove_upload_dir g.root upload_id))
    _ ← attempt (on_db unmapped (delete_upload g.bolt upload_id))
    return tt
