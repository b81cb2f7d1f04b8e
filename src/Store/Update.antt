-- ===== src/Store/Update.antt =====
-- internal/store: a write transaction takes effect as a whole or not at all.
use pterodactyl_proxmox_back.Prelude.{◌≡◌, refl, true, arith, Bytes}
use pterodactyl_proxmox_back.Bolt.{Bolt, key_fits}
use pterodactyl_proxmox_back.Prelude.Result.{Result, ok, err}
use pterodactyl_proxmox_back.Store.{
  StoreError, Fault, no_fault, begin_fails, commit_fails, Db, update, put_in, next_fault,
  later_faults, commit, run_tx,
}

-- The next write transaction does not fail.
module _ (bolt : Bolt) where
  abbrev pub NoFault : Db bolt → Type 0
  NoFault db = next_fault bolt db.faults ≡ no_fault

  -- the database as a transaction finds it: the contents are the same
  abbrev pub stepped : Db bolt → Db bolt
  stepped db = record db { faults = later_faults bolt db.faults }

  pub update_ok :
      (tx : Db bolt → Result StoreError (Db bolt)) (db : Db bolt) {d : Db bolt}
      → NoFault db
      → tx (stepped db) ≡ ok d
      → update bolt tx db ≡ (ok tt, d)
  unfolding update run_tx commit
  update_ok tx db f e = rw (f, e)

  commit-err :
      (f : Fault) (db : Db bolt) (r : Result StoreError (Db bolt)) (e : StoreError)
      → (commit bolt f db r).0 ≡ err e
      → (commit bolt f db r).1 ≡ db
  unfolding commit
  commit-err begin_fails db (ok d) e h = cc
  commit-err no_fault db (ok d) e h = cc
  commit-err commit_fails db (ok d) e h = refl
  commit-err begin_fails db (err x) e h = refl
  commit-err no_fault db (err x) e h = refl
  commit-err commit_fails db (err x) e h = refl

  commit-ok :
      (f : Fault) (db : Db bolt) (r : Result StoreError (Db bolt))
      → (commit bolt f db r).0 ≡ ok tt
      → r ≡ ok ((commit bolt f db r).1)
  unfolding commit
  commit-ok begin_fails db (ok d) h = refl
  commit-ok no_fault db (ok d) h = refl
  commit-ok commit_fails db (ok d) h = cc
  commit-ok begin_fails db (err x) h = cc
  commit-ok no_fault db (err x) h = cc
  commit-ok commit_fails db (err x) h = cc

  run_tx-err :
      (f : Fault) (tx : Db bolt → Result StoreError (Db bolt)) (db : Db bolt) (e : StoreError)
      → (run_tx bolt f tx db).0 ≡ err e
      → (run_tx bolt f tx db).1 ≡ db
  unfolding run_tx
  run_tx-err begin_fails tx db e h = refl
  run_tx-err commit_fails tx db e h = commit-err commit_fails db (tx db) e h
  run_tx-err no_fault tx db e h = commit-err no_fault db (tx db) e h

  run_tx-ok :
      (f : Fault) (tx : Db bolt → Result StoreError (Db bolt)) (db : Db bolt)
      → (run_tx bolt f tx db).0 ≡ ok tt
      → tx db ≡ ok ((run_tx bolt f tx db).1)
  unfolding run_tx
  run_tx-ok begin_fails tx db h = cc
  run_tx-ok commit_fails tx db h = commit-ok commit_fails db (tx db) h
  run_tx-ok no_fault tx db h = commit-ok no_fault db (tx db) h

  pub update-err :
      (tx : Db bolt → Result StoreError (Db bolt)) (db : Db bolt) (e : StoreError)
      → (update bolt tx db).0 ≡ err e
      → (update bolt tx db).1 ≡ stepped db
  unfolding update
  update-err tx db e h = run_tx-err (next_fault bolt db.faults) tx (stepped db) e h

  pub update-ok :
      (tx : Db bolt → Result StoreError (Db bolt)) (db : Db bolt)
      → (update bolt tx db).0 ≡ ok tt
      → tx (stepped db) ≡ ok ((update bolt tx db).1)
  unfolding update
  update-ok tx db h = run_tx-ok (next_fault bolt db.faults) tx (stepped db) h

  commit_fails-no_fault :
      (db : Db bolt) (r : Result StoreError (Db bolt))
      → (commit bolt commit_fails db r).0 ≡ ok tt
      → commit_fails ≡ no_fault
  unfolding commit
  commit_fails-no_fault db (ok d) h = cc
  commit_fails-no_fault db (err x) h = cc

  run_tx-no_fault :
      (f : Fault) (tx : Db bolt → Result StoreError (Db bolt)) (db : Db bolt)
      → (run_tx bolt f tx db).0 ≡ ok tt
      → f ≡ no_fault
  unfolding run_tx
  run_tx-no_fault begin_fails tx db h = cc
  run_tx-no_fault commit_fails tx db h = commit_fails-no_fault db (tx db) h
  run_tx-no_fault no_fault tx db h = refl

  pub update-NoFault :
      (tx : Db bolt → Result StoreError (Db bolt)) (db : Db bolt)
      → (update bolt tx db).0 ≡ ok tt
      → NoFault db
  unfolding update
  update-NoFault tx db h = run_tx-no_fault (next_fault bolt db.faults) tx (stepped db) h

  -- a Put that succeeds has put
  pub put_in-eq-ok :
      (k v : Bytes) (b : bolt.Bucket) {c : bolt.Bucket}
      → put_in bolt k v b ≡ ok c
      → (key_fits k ≡ true) × (bolt.put k v b ≡ c)
  unfolding put_in
  put_in-eq-ok k v b h = ground arith
