-- ===== src/Stage/Gc/Stale.antt =====
-- internal/stage/gc.go: a sweep removes the uploads that were last active before the cutoff.
use pterodactyl_proxmox_back.Prelude.{
  ℤ, ◌≡◌, refl, ap, ◌∙◌, ◌≢◌, inl, inr, Bool, true, none, some, List, [], ◌∷◌, Bool-cases,
  Option-cases, Bytes,
}
use pterodactyl_proxmox_back.Disk.{Disk, file, join_path, remove_all}
use pterodactyl_proxmox_back.Disk.Run.{NoFaults}
use pterodactyl_proxmox_back.Stage.{upload_dir, remove_upload_dir}
use pterodactyl_proxmox_back.Stage.Gc.{Kept, remove_upload, remove_uploads, sweep}
use pterodactyl_proxmox_back.Stage.Gc.Outside.{lookup-files_outside}
use pterodactyl_proxmox_back.Stage.Gc.Live.{remove_upload-KeptAs}
use pterodactyl_proxmox_back.Strings.{eq_bytes, has_prefix}
use pterodactyl_proxmox_back.Strings.Equal.{eq_bytes_iff, eq_bytes_refl}
use pterodactyl_proxmox_back.Strings.Split.{NoByte}
use pterodactyl_proxmox_back.Bolt.{Bolt}
use pterodactyl_proxmox_back.Bolt.Lists.{lookup}
use pterodactyl_proxmox_back.Prelude.Result.{Result, ok, err}
use pterodactyl_proxmox_back.Store.{StoreError, not_found, Json, Db}
use pterodactyl_proxmox_back.Store.Multipart.{
  MultipartUpload, PartInfo, delete_upload, get_upload, list_uploads_older_than, list_parts,
}
use pterodactyl_proxmox_back.Store.Multipart.Uploads.{
  passing, get_upload-stepped, Records, uploads_where-passing,
}
use pterodactyl_proxmox_back.Store.Multipart.Cascade.{
  list_parts-stepped, delete_upload-err, delete_upload-faults, delete_upload_run,
  delete_upload_cascade,
}
use pterodactyl_proxmox_back.Prelude.Int.{◌-ℤ◌, ltb_ℤ}
use pterodactyl_proxmox_back.Stage.Gc.Chosen.{
  Named, Among, NoSlashes, passing-Among, passing-NoSlashes,
}

module _ (bolt : Bolt) (json : Json MultipartUpload) (json_part : Json PartInfo) where
  -- no upload, no parts and no files below its directory
  abbrev pub Gone : Bytes → Bytes → Kept bolt → Type 0
  Gone root b kept =
      (get_upload bolt json b kept.0 ≡ err not_found)
      × (list_parts bolt json_part b kept.0 ≡ ok [])
      × ((q : Bytes)
          → has_prefix q (join_path (upload_dir root b) []) ≡ true
          → file q kept.1 ≡ none)

  -- nothing is to fail
  abbrev pub Faultless : Kept bolt → Type 0
  Faultless kept = (kept.0.faults ≡ []) × NoFaults kept.1

  remove_upload-Faultless :
      (root a : Bytes) (kept : Kept bolt)
      → Faultless kept
      → Faultless (remove_upload bolt root a kept)
  unfolding remove_upload remove_upload_dir remove_all
  remove_upload-Faultless root a (db, d) f = (delete_upload-faults bolt a db f.0, rw f.1 refl)

  file-removed_upload :
      (root b q : Bytes) (d : Disk)
      → has_prefix q (join_path (upload_dir root b) []) ≡ true
      → NoFaults d
      → file q ((remove_upload_dir root b d).1) ≡ none
  unfolding remove_upload_dir remove_all
  file-removed_upload root b q d h n =
      rw n (lookup-files_outside (upload_dir root b) q d.files ∙ rw h refl)

  lookup_of_get :
      (b : Bytes) (db : Db bolt) {u : MultipartUpload}
      → get_upload bolt json b db ≡ ok u
      → (v : Bytes) × (lookup b (bolt.pairs db.multipart_uploads) ≡ some v)
  unfolding get_upload
  lookup_of_get b db h = elim (Option-cases (lookup b (bolt.pairs db.multipart_uploads))) [
    | inl n ↦ cc (rw n at h)
    | inr f ↦ f
  ]

  remove_upload-Gone :
      (root b : Bytes) (kept : Kept bolt) {u : MultipartUpload}
      → NoByte b'/' b
      → Faultless kept
      → get_upload bolt json b kept.0 ≡ ok u
      → Gone root b (remove_upload bolt root b kept)
  unfolding remove_upload
  remove_upload-Gone root b (db, d) hb f g =
      let (v, found) = lookup_of_get b db g in
      let deleted =
        delete_upload_cascade bolt json json_part b b db hb hb
          (delete_upload_run bolt b db f.0 found) in
      (
        deleted.0 ∙ rw (eq_bytes_refl b) refl,
        deleted.1 ∙ rw (eq_bytes_refl b) refl,
        λ q h. file-removed_upload root b q d h f.1,
      )

  delete_upload_absent :
      (b : Bytes) (db : Db bolt)
      → NoByte b'/' b
      → get_upload bolt json b db ≡ err not_found
      → list_parts bolt json_part b db ≡ ok []
      → (get_upload bolt json b ((delete_upload bolt b db).1) ≡ err not_found)
        × (list_parts bolt json_part b ((delete_upload bolt b db).1) ≡ ok [])
  delete_upload_absent b db hb g p = by_outcome b db hb g p ((delete_upload bolt b db).0) refl
    where
      by_outcome :
          (b : Bytes) (db : Db bolt)
          → NoByte b'/' b
          → get_upload bolt json b db ≡ err not_found
          → list_parts bolt json_part b db ≡ ok []
          → (o : Result StoreError (Unit {0})) → (delete_upload bolt b db).0 ≡ o
          → (get_upload bolt json b ((delete_upload bolt b db).1) ≡ err not_found)
            × (list_parts bolt json_part b ((delete_upload bolt b db).1) ≡ ok [])
      by_outcome b db hb g p (ok u) h =
          rw (eq_bytes_refl b) at (delete_upload_cascade bolt json json_part b b db hb hb h)
      by_outcome b db hb g p (err e) h =
          let failed = delete_upload-err bolt b db e h in
          (
            ap (get_upload bolt json b) failed ∙ get_upload-stepped bolt json b db ∙ g,
            ap (list_parts bolt json_part b) failed ∙ list_parts-stepped json_part bolt b db ∙ p,
          )

  Gone-again :
      (root b : Bytes) (kept : Kept bolt)
      → NoByte b'/' b
      → Faultless kept
      → Gone root b kept
      → Gone root b (remove_upload bolt root b kept)
  unfolding remove_upload
  Gone-again root b (db, d) hb f g =
      let same = delete_upload_absent b db hb g.0 g.1 in
      (same.0, same.1, λ q h. file-removed_upload root b q d h f.1)

  -- what is gone stays so
  Gone-stays :
      (root a b : Bytes) (kept : Kept bolt)
      → NoByte b'/' a
      → NoByte b'/' b
      → Faultless kept
      → Gone root b kept
      → Gone root b (remove_upload bolt root a kept)
  Gone-stays root a b kept ha hb f g = elim (Bool-cases (eq_bytes a b)) [
    | inl e ↦ rw ((eq_bytes_iff a b).0 e) (Gone-again root b kept hb f g)
    | inr e ↦
        let same =
          remove_upload-KeptAs bolt json json_part root a b kept ha hb
            (λ h. cc (e, (eq_bytes_iff a b).1 h)) in
        (same.0 ∙ g.0, same.1 ∙ g.1, λ q h. same.2 q h ∙ g.2 q h)
  ]

  remove_uploads-stays :
      (root b : Bytes) (us : List MultipartUpload) (kept : Kept bolt)
      → NoByte b'/' b
      → NoSlashes us
      → Faultless kept
      → Gone root b kept
      → Gone root b (remove_uploads bolt root us kept)
  unfolding remove_uploads
  remove_uploads-stays root b [] kept hb ns f g = g
  remove_uploads-stays root b (u ∷ us) kept hb ns f g =
      remove_uploads-stays root b us (remove_upload bolt root u.upload_id kept) hb ns.1
        (remove_upload-Faultless root u.upload_id kept f)
        (Gone-stays root u.upload_id b kept ns.0 hb f g)

  remove_uploads-Gone :
      (root b : Bytes) (us : List MultipartUpload) (kept : Kept bolt) {w : MultipartUpload}
      → NoByte b'/' b
      → NoSlashes us
      → Faultless kept
      → get_upload bolt json b kept.0 ≡ ok w
      → Among b us
      → Gone root b (remove_uploads bolt root us kept)
  unfolding remove_uploads
  remove_uploads-Gone root b [] kept hb ns f g m = elim m [ ]
  remove_uploads-Gone root b (u ∷ us) kept hb ns f g m =
      let next = remove_upload bolt root u.upload_id kept in
      let f1 = remove_upload-Faultless root u.upload_id kept f in
      elim (Bool-cases (eq_bytes u.upload_id b)) [
        | inl e ↦
            let same = (eq_bytes_iff u.upload_id b).0 e in
            remove_uploads-stays root b us next hb ns.1 f1
              (rw same (remove_upload-Gone root b kept hb f g))
        | inr e ↦
            let n : u.upload_id ≢ b = λ h. cc (e, (eq_bytes_iff u.upload_id b).1 h) in
            let same = remove_upload-KeptAs bolt json json_part root u.upload_id b kept ns.0 hb n in
            remove_uploads-Gone root b us next hb ns.1 f1 (same.0 ∙ g)
              (elim m [ inl h ↦ elim (n h) [ ] | inr h ↦ h ])
      ]

  -- When no step fails, an upload that was last active before the cutoff is gone after the sweep,
  -- with its parts and the files below its directory. (Every stored upload can be unmarshalled and
  -- is stored under its id, and ids have no slash.)
  pub sweep-Gone :
      (root b v : Bytes) (ttl now : ℤ) (kept : Kept bolt) (us : List MultipartUpload)
      (u : MultipartUpload)
      → Records bolt json (bolt.pairs kept.0.multipart_uploads) us
      → Named (bolt.pairs kept.0.multipart_uploads) us
      → NoByte b'/' b
      → lookup b (bolt.pairs kept.0.multipart_uploads) ≡ some v
      → json.unmarshal v ≡ some u
      → ltb_ℤ u.last_activity_at (now -ℤ ttl) ≡ true
      → Faultless kept
      → Gone root b (sweep bolt json root ttl now kept)
  unfolding sweep list_uploads_older_than get_upload
  sweep-Gone root b v ttl now kept us u r n hb f j t fl =
      let there : get_upload bolt json b kept.0 ≡ ok u = rw (f, j) refl in
      let test : MultipartUpload → Bool = λ x. ltb_ℤ x.last_activity_at (now -ℤ ttl) in
      let l = bolt.pairs kept.0.multipart_uploads in
      rw (uploads_where-passing bolt json test l us r) (
        remove_uploads-Gone root b (passing test us) kept hb
          (passing-NoSlashes bolt json test l us n) fl there
          (passing-Among bolt json test b v u l us r n f j t))
