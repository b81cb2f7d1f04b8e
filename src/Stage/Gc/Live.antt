-- ===== src/Stage/Gc/Live.antt =====
-- internal/stage/gc.go: a sweep leaves the uploads alone that were active since the cutoff.
use pterodactyl_proxmox_back.Prelude.{
  ℤ, ◌≡◌, refl, ap, ◌∙◌, ◌≢◌, Bool, true, false, some, List, [], ◌∷◌, Bytes,
}
use pterodactyl_proxmox_back.Disk.{file, join_path}
use pterodactyl_proxmox_back.Stage.{upload_dir, remove_upload_dir}
use pterodactyl_proxmox_back.Stage.Gc.{Kept, remove_upload, remove_uploads, sweep}
use pterodactyl_proxmox_back.Stage.Gc.Outside.{file-remove_all, below_one}
use pterodactyl_proxmox_back.Strings.{has_prefix}
use pterodactyl_proxmox_back.Strings.Equal.{eq_bytes_ne}
use pterodactyl_proxmox_back.Strings.Split.{NoByte}
use pterodactyl_proxmox_back.Bolt.{Bolt}
use pterodactyl_proxmox_back.Bolt.Lists.{lookup}
use pterodactyl_proxmox_back.Prelude.Result.{Result, ok, err}
use pterodactyl_proxmox_back.Prelude.Int.{◌-ℤ◌, ltb_ℤ}
use pterodactyl_proxmox_back.Store.{StoreError, Json, Db}
use pterodactyl_proxmox_back.Store.Multipart.{
  MultipartUpload, PartInfo, delete_upload, get_upload, list_uploads_older_than, list_parts,
}
use pterodactyl_proxmox_back.Store.Multipart.Uploads.{
  passing, get_upload-stepped, Records, uploads_where-passing,
}
use pterodactyl_proxmox_back.Store.Multipart.Cascade.{
  list_parts-stepped, delete_upload-err, delete_upload_cascade,
}
use pterodactyl_proxmox_back.Stage.Gc.Chosen.{Named, OtherIds, passing-other}

module _ (bolt : Bolt) (json : Json MultipartUpload) where
  module _ (json_part : Json PartInfo) where
    -- the upload, its parts and the files below its directory are the same
    abbrev pub KeptAs : Bytes → Bytes → Kept bolt → Kept bolt → Type 0
    KeptAs root b before after =
        (get_upload bolt json b after.0 ≡ get_upload bolt json b before.0)
        × (list_parts bolt json_part b after.0 ≡ list_parts bolt json_part b before.0)
        × ((q : Bytes)
            → has_prefix q (join_path (upload_dir root b) []) ≡ true
            → file q after.1 ≡ file q before.1)

    same_db :
        (a b : Bytes) (db : Db bolt)
        → NoByte b'/' a
        → NoByte b'/' b
        → a ≢ b
        → (get_upload bolt json b ((delete_upload bolt a db).1) ≡ get_upload bolt json b db)
          × (list_parts bolt json_part b ((delete_upload bolt a db).1)
              ≡ list_parts bolt json_part b db)
    same_db a b db ha hb n = by_outcome a b db ha hb n ((delete_upload bolt a db).0) refl
      where
        by_outcome :
            (a b : Bytes) (db : Db bolt)
            → NoByte b'/' a
            → NoByte b'/' b
            → a ≢ b
            → (o : Result StoreError (Unit {0})) → (delete_upload bolt a db).0 ≡ o
            → (get_upload bolt json b ((delete_upload bolt a db).1) ≡ get_upload bolt json b db)
              × (list_parts bolt json_part b ((delete_upload bolt a db).1)
                  ≡ list_parts bolt json_part b db)
        by_outcome a b db ha hb n (ok u) h =
            rw (eq_bytes_ne a b n) at (delete_upload_cascade bolt json json_part a b db ha hb h)
        by_outcome a b db ha hb n (err e) h =
            let failed = delete_upload-err bolt a db e h in
            (
              ap (get_upload bolt json b) failed ∙ get_upload-stepped bolt json b db,
              ap (list_parts bolt json_part b) failed ∙ list_parts-stepped json_part bolt b db,
            )

    pub remove_upload-KeptAs :
        (root a b : Bytes) (kept : Kept bolt)
        → NoByte b'/' a
        → NoByte b'/' b
        → a ≢ b
        → KeptAs root b kept (remove_upload bolt root a kept)
    unfolding remove_upload remove_upload_dir
    remove_upload-KeptAs root a b (db, d) ha hb n =
        let same = same_db a b db ha hb n in
        (
          same.0,
          same.1,
          λ q h. file-remove_all (upload_dir root a) q d (below_one root a b q ha hb n h),
        )

    pub remove_uploads-KeptAs :
        (root b : Bytes) (us : List MultipartUpload) (kept : Kept bolt)
        → NoByte b'/' b
        → OtherIds b us
        → KeptAs root b kept (remove_uploads bolt root us kept)
    unfolding remove_uploads
    remove_uploads-KeptAs root b [] kept hb o = (refl, refl, λ q h. refl)
    remove_uploads-KeptAs root b (u ∷ us) kept hb o =
        let first = remove_upload-KeptAs root u.upload_id b kept o.0.0 hb o.0.1 in
        let rest =
          remove_uploads-KeptAs root b us (remove_upload bolt root u.upload_id kept) hb o.1 in
        (rest.0 ∙ first.0, rest.1 ∙ first.1, λ q h. rest.2 q h ∙ first.2 q h)

    -- Whichever steps of a sweep fail, an upload that was active at the cutoff or later is still
    -- there, and so are its parts and the files below its directory. (Every stored upload can be
    -- unmarshalled and is stored under its id, and ids have no slash.)
    pub sweep-KeptAs :
        (root b v : Bytes) (ttl now : ℤ) (kept : Kept bolt) (us : List MultipartUpload)
        (u : MultipartUpload)
        → Records bolt json (bolt.pairs kept.0.multipart_uploads) us
        → Named (bolt.pairs kept.0.multipart_uploads) us
        → NoByte b'/' b
        → lookup b (bolt.pairs kept.0.multipart_uploads) ≡ some v
        → json.unmarshal v ≡ some u
        → ltb_ℤ u.last_activity_at (now -ℤ ttl) ≡ false
        → KeptAs root b kept (sweep bolt json root ttl now kept)
    unfolding sweep list_uploads_older_than
    sweep-KeptAs root b v ttl now kept us u r n hb f j t =
        let test : MultipartUpload → Bool =
          λ x. ltb_ℤ (MultipartUpload.last_activity_at x) (now -ℤ ttl) in
        let l = bolt.pairs kept.0.multipart_uploads in
        rw (uploads_where-passing bolt json test l us r) (
          remove_uploads-KeptAs root b (passing test us) kept hb (
            passing-other bolt json test b v u l us (bolt.pairs_sorted kept.0.multipart_uploads) r n
              f j t))
