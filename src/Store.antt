-- ===== src/Store.antt =====
-- internal/store: the database, its transactions and its keys. Each write transaction takes the
-- next fault of a schedule: it may fail as it begins (a read-only database) or as it commits (a
-- full disk), and then it has changed nothing.
pub mod Lock
pub mod Objects
pub mod Keys
pub mod Update
pub mod Multipart
use pterodactyl_proxmox_back.Prelude.{◌≡◌, Option, some, List, [], ◌∷◌, if◌then◌else◌, Bytes}
use pterodactyl_proxmox_back.Bolt.{Bolt, key_fits}
use pterodactyl_proxmox_back.Prelude.Result.{Result, ok, err}

pub data StoreError : Type 0 where
  not_found marshal_failed unmarshal_failed bad_key write_failed : StoreError

pub data Fault : Type 0 where
  no_fault begin_fails commit_fails : Fault

-- encoding/json at one type: json.Marshal, and json.Unmarshal into a fresh value
pub record Json {ℓ} (A : Type ℓ) : Type ℓ where
  pub marshal : A → Option Bytes
  pub unmarshal : Bytes → Option A

-- A value that JSON gives back as it was: one whose texts are valid UTF-8, and whose times have a
-- year of four digits.
abbrev pub RoundTrips {ℓ} : {A : Type ℓ} → Json A → A → Bytes → Type ℓ
RoundTrips j a b = (j.marshal a ≡ some b) × (j.unmarshal b ≡ some a)

module _ (bolt : Bolt) where
  pub record Db : Type 0 where
    pub objects : bolt.Bucket
    pub multipart_uploads : bolt.Bucket
    pub multipart_parts : bolt.Bucket
    pub faults : List Fault

  abbrev next_fault : List Fault → Fault
  next_fault [] = no_fault
  next_fault (f ∷ fs) = f

  abbrev later_faults : List Fault → List Fault
  later_faults [] = []
  later_faults (f ∷ fs) = fs

  abbrev pub Outcome : Type 0
  Outcome = Result StoreError (Unit {0}) × Db

  -- the end of a transaction whose body has returned
  commit : Fault → Db → Result StoreError Db → Outcome
  commit commit_fails before (ok after) = (err write_failed, before)
  commit _ before (ok after) = (ok tt, after)
  commit _ before (err e) = (err e, before)

  run_tx : Fault → (Db → Result StoreError Db) → Db → Outcome
  unfolding commit
  run_tx begin_fails tx db = (err write_failed, db)
  run_tx fault tx db = commit fault db (tx db)

  -- db.bolt.Update: the outcome, and the database after it
  unfoldable pub update : (Db → Result StoreError Db) → Db → Outcome
  unfolding run_tx
  update tx db = run_tx (next_fault db.faults) tx (record db { faults = later_faults db.faults })

  -- Bucket.Put
  unfoldable pub put_in : Bytes → Bytes → bolt.Bucket → Result StoreError bolt.Bucket
  put_in k v b = if key_fits k then ok (bolt.put k v b) else err bad_key
