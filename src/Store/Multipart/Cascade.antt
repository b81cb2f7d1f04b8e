-- ===== src/Store/Multipart/Cascade.antt =====
-- internal/store/multipart.go: DeleteUpload removes an upload and all of its parts, and nothing
-- of the others.
use pterodactyl_proxmox_back.Prelude.{
  ℕ, ◌≡◌, refl, sym, ap, ◌∙◌, ◌≢◌, inl, inr, true, Option, none, some, [], ◌∷◌, ◌++◌, arith,
  if◌then◌else◌, Bool-cases, Bytes,
}
use pterodactyl_proxmox_back.Bolt.{Bolt}
use pterodactyl_proxmox_back.Bolt.Lists.{lookup, remove_pair, IsSorted, lookup-remove_pair}
use pterodactyl_proxmox_back.Bolt.Scan.{
  seek, with_prefix, with_prefix_stop, with_prefix-seek, NotBefore, seek-NotBefore,
}
use pterodactyl_proxmox_back.Prelude.Result.{Result, ok, err, ok_injective}
use pterodactyl_proxmox_back.Store.{StoreError, not_found, Json, Db}
use pterodactyl_proxmox_back.Store.Multipart.{
  MultipartUpload, PartInfo, Pairs, parts_of, delete_upload_tx, delete_upload, get_upload,
  read_parts, list_parts, delete_upload_found,
}
use pterodactyl_proxmox_back.Store.Multipart.Scan.{without_prefix, delete_keys-gather_keys}
use pterodactyl_proxmox_back.Strings.{eq_bytes, has_prefix}
use pterodactyl_proxmox_back.Strings.Split.{NoByte}
use pterodactyl_proxmox_back.Store.Update.{stepped, update_ok, update-err, update-ok}
use pterodactyl_proxmox_back.Strings.Equal.{eq_bytes_iff}

one_owner :
    (x : ℕ) (k a b : Bytes)
    → NoByte x a
    → NoByte x b
    → has_prefix k (a ++ (x ∷ [])) ≡ true
    → has_prefix k (b ++ (x ∷ [])) ≡ true
    → a ≡ b
unfolding has_prefix
one_owner x k [] [] ha hb p q = refl
one_owner x [] [] (d ∷ b) ha hb p q = cc
one_owner x (e ∷ k) [] (d ∷ b) ha hb p q = ground arith
one_owner x [] (c ∷ a) b ha hb p q = cc
one_owner x (e ∷ k) (c ∷ a) [] ha hb p q = ground arith
one_owner x (e ∷ k) (c ∷ a) (d ∷ b) ha hb p q = ground (arith, one_owner x k a b)

with_prefix-without_prefix : (p : Bytes) (l : Pairs) → with_prefix p (without_prefix p l) ≡ []
unfolding with_prefix without_prefix
with_prefix-without_prefix p [] = refl
with_prefix-without_prefix p ((k, v) ∷ l) = ground (arith, with_prefix-without_prefix p l)

-- removing the parts of one upload leaves those of another
with_prefix-other :
    (a b : Bytes) (l : Pairs)
    → NoByte b'/' a
    → NoByte b'/' b
    → a ≢ b
    → with_prefix (parts_of b) (without_prefix (parts_of a) l) ≡ with_prefix (parts_of b) l
unfolding with_prefix without_prefix
with_prefix-other a b [] ha hb n = refl
with_prefix-other a b ((k, v) ∷ l) ha hb n =
    ground (arith, with_prefix-other a b l, one_owner b'/' k a b)

module _ (json : Json PartInfo) (bolt : Bolt) where
  read_parts-with_prefix :
      (p : Bytes) (l : Pairs)
      → IsSorted l
      → NotBefore p l
      → read_parts bolt json p l ≡ read_parts bolt json [] (with_prefix p l)
  unfolding read_parts with_prefix has_prefix
  read_parts-with_prefix p [] s n = refl
  read_parts-with_prefix p ((k, v) ∷ l) s n =
      ground (arith, with_prefix_stop k v p l n.0, s.0, read_parts-with_prefix p l s.1 n.1)

  -- a listing of parts reads the pairs with the prefix
  pub list_parts-with_prefix :
      (upload_id : Bytes) (db : Db bolt)
      → list_parts bolt json upload_id db
        ≡ read_parts bolt json [] (with_prefix (parts_of upload_id) (bolt.pairs db.multipart_parts))
  unfolding list_parts
  list_parts-with_prefix upload_id db =
      let l = bolt.pairs db.multipart_parts in
      let p = parts_of upload_id in
      let behind = seek-NotBefore p l (bolt.pairs_sorted db.multipart_parts) in
      rw (read_parts-with_prefix p (seek p l) behind.0 behind.1, with_prefix-seek p l)

  pub list_parts-stepped :
      (upload_id : Bytes) (db : Db bolt)
      → list_parts bolt json upload_id (stepped bolt db) ≡ list_parts bolt json upload_id db
  unfolding list_parts
  list_parts-stepped upload_id db = refl

-- a delete that failed has changed nothing
pub delete_upload-err :
    (bolt : Bolt) (upload_id : Bytes) (db : Db bolt) (e : StoreError)
    → (delete_upload bolt upload_id db).0 ≡ err e
    → (delete_upload bolt upload_id db).1 ≡ stepped bolt db
unfolding delete_upload
delete_upload-err bolt upload_id db e h = update-err bolt (delete_upload_tx bolt upload_id) db e h

delete_upload_tx_ok :
    (bolt : Bolt) (upload_id : Bytes) (db : Db bolt)
    → (delete_upload bolt upload_id db).0 ≡ ok tt
    → delete_upload_found bolt upload_id
        (stepped bolt db)
        (lookup upload_id (bolt.pairs db.multipart_uploads))
      ≡ ok ((delete_upload bolt upload_id db).1)
unfolding delete_upload delete_upload_tx
delete_upload_tx_ok bolt upload_id db h = update-ok bolt (delete_upload_tx bolt upload_id) db h

delete_upload_found-faults :
    (bolt : Bolt) (upload_id : Bytes) (d : Db bolt) (o : Option Bytes) {e : Db bolt}
    → delete_upload_found bolt upload_id d o ≡ ok e
    → e.faults ≡ d.faults
delete_upload_found-faults bolt upload_id d none h = cc
delete_upload_found-faults bolt upload_id d (some v) h =
    sym (ap (λ x. Db.faults x) (ok_injective h))

-- without a fault to come, none comes up
pub delete_upload-faults :
    (bolt : Bolt) (upload_id : Bytes) (db : Db bolt)
    → db.faults ≡ []
    → ((delete_upload bolt upload_id db).1).faults ≡ []
delete_upload-faults bolt upload_id db n =
    by_outcome bolt upload_id db n ((delete_upload bolt upload_id db).0) refl
  where
    by_outcome :
        (bolt : Bolt) (upload_id : Bytes) (db : Db bolt)
        → db.faults ≡ []
        → (o : Result StoreError (Unit {0})) → (delete_upload bolt upload_id db).0 ≡ o
        → ((delete_upload bolt upload_id db).1).faults ≡ []
    by_outcome bolt upload_id db n (ok u) h =
        delete_upload_found-faults bolt upload_id (stepped bolt db)
          (lookup upload_id (bolt.pairs db.multipart_uploads))
          (delete_upload_tx_ok bolt upload_id db h)
        ∙ rw n refl
    by_outcome bolt upload_id db n (err e) h =
        ap (λ x. Db.faults x) (delete_upload-err bolt upload_id db e h) ∙ rw n refl

delete_upload_found-objects :
    (bolt : Bolt) (upload_id : Bytes) (d : Db bolt) (o : Option Bytes) {e : Db bolt}
    → delete_upload_found bolt upload_id d o ≡ ok e
    → e.objects ≡ d.objects
delete_upload_found-objects bolt upload_id d none h = cc
delete_upload_found-objects bolt upload_id d (some v) h =
    sym (ap (λ x. Db.objects x) (ok_injective h))

-- the objects are not touched
pub delete_upload-objects :
    (bolt : Bolt) (upload_id : Bytes) (db : Db bolt)
    → ((delete_upload bolt upload_id db).1).objects ≡ db.objects
delete_upload-objects bolt upload_id db =
    by_outcome bolt upload_id db ((delete_upload bolt upload_id db).0) refl
  where
    by_outcome :
        (bolt : Bolt) (upload_id : Bytes) (db : Db bolt)
        → (o : Result StoreError (Unit {0})) → (delete_upload bolt upload_id db).0 ≡ o
        → ((delete_upload bolt upload_id db).1).objects ≡ db.objects
    by_outcome bolt upload_id db (ok u) h =
        delete_upload_found-objects bolt upload_id (stepped bolt db)
          (lookup upload_id (bolt.pairs db.multipart_uploads))
          (delete_upload_tx_ok bolt upload_id db h)
    by_outcome bolt upload_id db (err e) h =
        ap (λ x. Db.objects x) (delete_upload-err bolt upload_id db e h)

-- an upload that is there is deleted
pub delete_upload_run :
    (bolt : Bolt) (upload_id : Bytes) (db : Db bolt) {v : Bytes}
    → db.faults ≡ []
    → lookup upload_id (bolt.pairs db.multipart_uploads) ≡ some v
    → (delete_upload bolt upload_id db).0 ≡ ok tt
unfolding delete_upload delete_upload_tx
delete_upload_run bolt upload_id db {v = v} n f =
    ap (λ x. x.0)
      (update_ok bolt (delete_upload_tx bolt upload_id) db (rw n refl)
        (ap (delete_upload_found bolt upload_id (stepped bolt db)) f))

module _ (bolt : Bolt) (json : Json MultipartUpload) (json_part : Json PartInfo) where
  -- what a delete that succeeded leaves in the two buckets
  Deleted : Bytes → Db bolt → Db bolt → Type 0
  Deleted upload_id d e =
      (bolt.pairs e.multipart_uploads ≡ remove_pair upload_id (bolt.pairs d.multipart_uploads))
      × (bolt.pairs e.multipart_parts
          ≡ without_prefix (parts_of upload_id) (bolt.pairs d.multipart_parts))

  delete_upload_found-Deleted :
      (upload_id : Bytes) (d : Db bolt) (o : Option Bytes) (e : Db bolt)
      → delete_upload_found bolt upload_id d o ≡ ok e
      → Deleted upload_id d e
  unfolding Deleted
  delete_upload_found-Deleted upload_id d none e h = cc
  delete_upload_found-Deleted upload_id d (some v) e h =
      let same = ok_injective h in
      (
        ap (λ x. bolt.pairs (Db.multipart_uploads x)) (sym same)
            ∙ bolt.pairs_delete upload_id d.multipart_uploads,
        ap (λ x. bolt.pairs (Db.multipart_parts x)) (sym same)
            ∙ delete_keys-gather_keys bolt (parts_of upload_id) d.multipart_parts,
      )

  delete_upload-Deleted :
      (upload_id : Bytes) (db : Db bolt)
      → (delete_upload bolt upload_id db).0 ≡ ok tt
      → Deleted upload_id db ((delete_upload bolt upload_id db).1)
  unfolding Deleted
  delete_upload-Deleted upload_id db h =
      delete_upload_found-Deleted upload_id (stepped bolt db)
        (lookup upload_id (bolt.pairs db.multipart_uploads)) ((delete_upload bolt upload_id db).1)
        (delete_upload_tx_ok bolt upload_id db h)

  get_upload-Deleted :
      (a b : Bytes) (d e : Db bolt)
      → Deleted a d e
      → get_upload bolt json b e
        ≡ (if eq_bytes a b then err not_found else get_upload bolt json b d)
  unfolding Deleted get_upload
  get_upload-Deleted a b d e h =
      ground (arith, lookup-remove_pair a b (bolt.pairs d.multipart_uploads), ap (lookup b) h.0)

  list_parts-Deleted :
      (a b : Bytes) (d e : Db bolt)
      → NoByte b'/' a
      → NoByte b'/' b
      → Deleted a d e
      → list_parts bolt json_part b e
        ≡ (if eq_bytes a b then ok [] else list_parts bolt json_part b d)
  unfolding Deleted read_parts
  list_parts-Deleted a b d e ha hb h =
      rw (list_parts-with_prefix json_part bolt b e, list_parts-with_prefix json_part bolt b d, h.1)
        (elim (Bool-cases (eq_bytes a b)) [
          | inl q ↦
              rw
                (
                  q,
                  ← (eq_bytes_iff a b).0 q,
                  with_prefix-without_prefix (parts_of a) (bolt.pairs d.multipart_parts),
                )
                refl
          | inr q ↦ rw (
            q,
            with_prefix-other a b (bolt.pairs d.multipart_parts) ha hb
                (λ r. cc (q, (eq_bytes_iff a b).1 r)),
          )
        ])

  -- A delete that succeeded has removed the upload and all its parts; other uploads and their
  -- parts are what they were. (Upload ids have no slash.)
  pub delete_upload_cascade :
      (a b : Bytes) (db : Db bolt)
      → NoByte b'/' a
      → NoByte b'/' b
      → (delete_upload bolt a db).0 ≡ ok tt
      → (get_upload bolt json b ((delete_upload bolt a db).1)
          ≡ (if eq_bytes a b then err not_found else get_upload bolt json b db))
        × (list_parts bolt json_part b ((delete_upload bolt a db).1)
            ≡ (if eq_bytes a b then ok [] else list_parts bolt json_part b db))
  delete_upload_cascade a b db ha hb h =
      let deleted = delete_upload-Deleted a db h in
      let after = (delete_upload bolt a db).1 in
      (get_upload-Deleted a b db after deleted, list_parts-Deleted a b db after ha hb deleted)
