-- ===== src/Store/Multipart/Uploads.antt =====
-- internal/store/multipart.go: the records of the uploads.
use pterodactyl_proxmox_back.Prelude.{
  ℤ, ◌≡◌, refl, ap, inl, inr, Bool, ◌&&◌, some, List, [], ◌∷◌, arith, if◌then◌else◌, Option-cases,
  Bytes,
}
use pterodactyl_proxmox_back.Bolt.{Bolt}
use pterodactyl_proxmox_back.Bolt.Lists.{lookup, insert_pair, lookup-insert_pair}
use pterodactyl_proxmox_back.Prelude.Result.{ok, ok_injective}
use pterodactyl_proxmox_back.Store.{Json, RoundTrips, Db, update, put_in}
use pterodactyl_proxmox_back.Store.Multipart.{
  MultipartUpload, put_upload_tx, create_upload, get_upload, touch_tx, touch_upload, uploads_where,
  list_uploads_older_than, find_uploads_by_bucket_key, Pairs,
}
use pterodactyl_proxmox_back.Store.Update.{stepped, update-ok}
use pterodactyl_proxmox_back.Strings.{eq_bytes}
use pterodactyl_proxmox_back.Prelude.Int.{ltb_ℤ}

-- the uploads that pass a test
unfoldable pub passing : (MultipartUpload → Bool) → List MultipartUpload → List MultipartUpload
passing test [] = []
passing test (u ∷ us) = if test u then u ∷ passing test us else passing test us

module _ (bolt : Bolt) (json : Json MultipartUpload) where
  put_upload_tx-ok :
      (upload_id v : Bytes) (d : Db bolt) {e : Db bolt}
      → put_upload_tx bolt json upload_id v d ≡ ok e
      → bolt.pairs e.multipart_uploads ≡ insert_pair upload_id v (bolt.pairs d.multipart_uploads)
  unfolding put_upload_tx put_in
  put_upload_tx-ok upload_id v d h = ground (arith, bolt.pairs_put upload_id v d.multipart_uploads)

  get_upload-put :
      (a b v : Bytes) (u : MultipartUpload) (d e : Db bolt)
      → json.unmarshal v ≡ some u
      → bolt.pairs e.multipart_uploads ≡ insert_pair a v (bolt.pairs d.multipart_uploads)
      → get_upload bolt json b e ≡ (if eq_bytes a b then ok u else get_upload bolt json b d)
  unfolding get_upload
  get_upload-put a b v u d e j h =
      ground (arith, ap (lookup b) h, lookup-insert_pair a v b (bolt.pairs d.multipart_uploads))

  -- After a create that succeeded, the upload is found under its id, and the others as before, if
  -- JSON gives the upload back as it was.
  pub get_upload-create_upload :
      (u : MultipartUpload) (v b : Bytes) (db : Db bolt)
      → RoundTrips json u v
      → (create_upload bolt json u db).0 ≡ ok tt
      → get_upload bolt json b ((create_upload bolt json u db).1)
        ≡ (if eq_bytes u.upload_id b then ok u else get_upload bolt json b db)
  unfolding create_upload
  get_upload-create_upload u v b db j h =
      rw (create_upload, j.0)
        (get_upload-put u.upload_id b v u db
          ((update bolt (put_upload_tx bolt json u.upload_id v) db).1) j.1
          (put_upload_tx-ok u.upload_id v (stepped bolt db) (
            update-ok bolt (put_upload_tx bolt json u.upload_id v) db
              (rw (create_upload, j.0) at h))))

  pub get_upload-stepped :
      (a : Bytes) (db : Db bolt)
      → get_upload bolt json a (stepped bolt db) ≡ get_upload bolt json a db
  unfolding get_upload
  get_upload-stepped a db = refl

  touch_tx-ok :
      (a w : Bytes) (t : ℤ) (u : MultipartUpload) (d : Db bolt) {e : Db bolt}
      → get_upload bolt json a d ≡ ok u
      → json.marshal (record u { last_activity_at = t }) ≡ some w
      → touch_tx bolt json a t d ≡ ok e
      → put_upload_tx bolt json a w d ≡ ok e
  unfolding touch_tx get_upload
  touch_tx-ok a w t u d g j h = elim (Option-cases (lookup a (bolt.pairs d.multipart_uploads))) [
    | inl n ↦ cc (rw n at g)
    | inr (v, f) ↦ elim (Option-cases (json.unmarshal v)) [
      | inl n ↦ cc (rw (f, n) at g)
      | inr (u2, f2) ↦
          let same = ok_injective (rw (f, f2) at g) in rw (touch_tx, f, f2, same, j) at h
    ]
  ]

  -- After a touch that succeeded, the upload has the new time of activity and is else as it was,
  -- and the other uploads are as before, if JSON gives the touched upload back as it was.
  pub get_upload-touch_upload :
      (a b w : Bytes) (t : ℤ) (u : MultipartUpload) (db : Db bolt)
      → get_upload bolt json a db ≡ ok u
      → RoundTrips json (record u { last_activity_at = t }) w
      → (touch_upload bolt json a t db).0 ≡ ok tt
      → get_upload bolt json b ((touch_upload bolt json a t db).1) ≡ (
          if eq_bytes a b
          then ok (record u { last_activity_at = t })
          else get_upload bolt json b db)
  unfolding touch_upload
  get_upload-touch_upload a b w t u db g j h =
      get_upload-put a b w (record u { last_activity_at = t }) db
        ((touch_upload bolt json a t db).1) j.1
        (put_upload_tx-ok a w (stepped bolt db) (
          touch_tx-ok a w t u (stepped bolt db) (rw (get_upload-stepped a db) g) j.0
            (update-ok bolt (touch_tx bolt json a t) db h)))

  -- json.Unmarshal of each value
  abbrev pub Records : Pairs → List MultipartUpload → Type 0
  Records [] [] = Unit
  Records ((k, v) ∷ l) (u ∷ us) = (json.unmarshal v ≡ some u) × Records l us
  Records _ _ = ⊥

  pub uploads_where-passing :
      (test : MultipartUpload → Bool) (l : Pairs) (us : List MultipartUpload)
      → Records l us
      → uploads_where bolt json test l ≡ ok (passing test us)
  unfolding uploads_where passing
  uploads_where-passing test [] [] h = refl
  uploads_where-passing test [] (u ∷ us) h = ground arith
  uploads_where-passing test (e ∷ l) [] h = ground arith
  uploads_where-passing test ((k, v) ∷ l) (u ∷ us) h =
      rw (h.0, uploads_where-passing test l us h.1) (ground arith)

  -- A delete of an object and the sweep find exactly the uploads of the bucket and key, and exactly
  -- those that were last active before the cutoff. (Every stored upload can be unmarshalled.)
  pub find_and_list_passing :
      (bucket key : Bytes) (cutoff : ℤ) (db : Db bolt) (us : List MultipartUpload)
      → Records (bolt.pairs db.multipart_uploads) us
      → (find_uploads_by_bucket_key bolt json bucket key db
          ≡ ok (passing (λ u. eq_bytes u.bucket bucket && eq_bytes u.key key) us))
        × (list_uploads_older_than bolt json cutoff db
            ≡ ok (passing (λ u. ltb_ℤ u.last_activity_at cutoff) us))
  unfolding find_uploads_by_bucket_key list_uploads_older_than
  find_and_list_passing bucket key cutoff db us h = (
    uploads_where-passing (λ u. eq_bytes u.bucket bucket && eq_bytes u.key key)
        (bolt.pairs db.multipart_uploads) us h,
    uploads_where-passing (λ u. ltb_ℤ u.last_activity_at cutoff) (bolt.pairs db.multipart_uploads)
        us h,
  )
