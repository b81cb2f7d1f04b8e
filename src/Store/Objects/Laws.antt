-- ===== src/Store/Objects/Laws.antt =====
-- internal/store/objects.go: what a get finds after a put, a failed put and a delete.
use pterodactyl_proxmox_back.Prelude.{
  ◌+◌, ◌<◌, ◌≡◌, refl, ap, ◌↔◌, inl, inr, Bool, true, false, ◌&&◌, none, some, arith, if◌then◌else◌,
  Option-cases, Bytes, length,
}
use pterodactyl_proxmox_back.Bolt.{Bolt, max_key_size, key_fits}
use pterodactyl_proxmox_back.Bolt.Lists.{lookup, lookup-insert_pair}
use pterodactyl_proxmox_back.Prelude.Result.{ok, err}
use pterodactyl_proxmox_back.Store.{StoreError, not_found, Json, RoundTrips, Db, put_in}
use pterodactyl_proxmox_back.Store.Keys.{
  object_map_key, object_map_key_injective, length-object_map_key,
}
use pterodactyl_proxmox_back.Store.Objects.{
  ObjectMapping, put_tx, put_object_mapping, get_object_mapping,
}
use pterodactyl_proxmox_back.Strings.{eq_bytes}
use pterodactyl_proxmox_back.Strings.Equal.{eq_bytes_iff}
use pterodactyl_proxmox_back.Strings.Split.{NoByte}
use pterodactyl_proxmox_back.Store.Update.{
  NoFault, stepped, update_ok, update-err, update-ok, update-NoFault,
}

module _ (bolt : Bolt) (json : Json ObjectMapping) where
  pub object_map_key-eq_bytes :
      (b k c j : Bytes)
      → NoByte 0 b
      → NoByte 0 c
      → eq_bytes (object_map_key b k) (object_map_key c j) ≡ (eq_bytes b c && eq_bytes k j)
  object_map_key-eq_bytes b k c j hb hc = ground (
    arith,
    eq_bytes_iff (object_map_key b k) (object_map_key c j),
    eq_bytes_iff b c,
    eq_bytes_iff k j,
    object_map_key_injective b k c j hb hc,
  )

  pub get_object_mapping-lookup :
      (b k : Bytes) (d e : Db bolt)
      → lookup (object_map_key b k) (bolt.pairs d.objects)
        ≡ lookup (object_map_key b k) (bolt.pairs e.objects)
      → get_object_mapping bolt json b k d ≡ get_object_mapping bolt json b k e
  unfolding get_object_mapping
  get_object_mapping-lookup b k d e h = rw h

  get_object_mapping-found :
      (b k v : Bytes) {m : ObjectMapping} (d : Db bolt)
      → lookup (object_map_key b k) (bolt.pairs d.objects) ≡ some v
      → json.unmarshal v ≡ some m
      → get_object_mapping bolt json b k d ≡ ok m
  unfolding get_object_mapping
  get_object_mapping-found b k v d h j = rw (h, j)

  pub get_object_mapping-missing :
      (b k : Bytes) (d : Db bolt)
      → (lookup (object_map_key b k) (bolt.pairs d.objects) ≡ none)
        ↔ (get_object_mapping bolt json b k d ≡ err not_found)
  unfolding get_object_mapping
  get_object_mapping-missing b k d = ground arith

  put_tx-eq-ok :
      (m : ObjectMapping) (v : Bytes) (d : Db bolt) {e : Db bolt}
      → put_tx bolt json m v d ≡ ok e
      → e ≡ record d { objects = bolt.put (object_map_key m.bucket m.key) v d.objects }
  unfolding put_tx put_in
  put_tx-eq-ok m v d h = ground arith

  put_object_mapping-ok :
      (m : ObjectMapping) (v : Bytes) (db : Db bolt)
      → json.marshal m ≡ some v
      → (put_object_mapping bolt json m db).0 ≡ ok tt
      → (put_object_mapping bolt json m db).1 ≡ record (stepped bolt db) {
        objects = bolt.put (object_map_key m.bucket m.key) v db.objects;
      }
  unfolding put_object_mapping
  put_object_mapping-ok m v db j h =
      rw (put_object_mapping, j)
        (put_tx-eq-ok m v (stepped bolt db)
          (update-ok bolt (put_tx bolt json m v) db (rw (put_object_mapping, j) at h)))

  -- After a put that succeeded, a get of the key finds the mapping, and any other get what it
  -- found before. (JSON gives the mapping back as it was, and no bucket name has a NUL byte.)
  pub get_object_mapping-put_object_mapping :
      (m : ObjectMapping) (v b k : Bytes) (db : Db bolt)
      → RoundTrips json m v
      → NoByte 0 m.bucket
      → NoByte 0 b
      → (put_object_mapping bolt json m db).0 ≡ ok tt
      → get_object_mapping bolt json b k ((put_object_mapping bolt json m db).1) ≡ (
          if eq_bytes m.bucket b && eq_bytes m.key k
          then ok m
          else get_object_mapping bolt json b k db)
  unfolding put_object_mapping
  get_object_mapping-put_object_mapping m v b k db j hm hb h =
      found (eq_bytes m.bucket b && eq_bytes m.key k) refl
    where
      lookup_put :
          lookup (object_map_key b k) (bolt.pairs ((put_object_mapping bolt json m db).1).objects)
          ≡ (if eq_bytes m.bucket b && eq_bytes m.key k
              then some v
              else lookup (object_map_key b k) (bolt.pairs db.objects))
      lookup_put = rw (
        put_object_mapping-ok m v db j.0 h,
        bolt.pairs_put (object_map_key m.bucket m.key) v db.objects,
        lookup-insert_pair (object_map_key m.bucket m.key) v (object_map_key b k)
            (bolt.pairs db.objects),
        object_map_key-eq_bytes m.bucket m.key b k hm hb,
      )

      found :
          (same : Bool)
          → eq_bytes m.bucket b && eq_bytes m.key k ≡ same
          → get_object_mapping bolt json b k ((put_object_mapping bolt json m db).1)
            ≡ (if same then ok m else get_object_mapping bolt json b k db)
      found true e =
          get_object_mapping-found b k v (put_object_mapping bolt json m db).1 (rw e at lookup_put)
            j.1
      found false e =
          get_object_mapping-lookup b k ((put_object_mapping bolt json m db).1) db
            (rw e at lookup_put)

  -- When a put has failed, for whatever reason, every get answers what it answered before.
  pub put_object_mapping-err :
      (m : ObjectMapping) (e : StoreError) (db : Db bolt) (b k : Bytes)
      → (put_object_mapping bolt json m db).0 ≡ err e
      → get_object_mapping bolt json b k ((put_object_mapping bolt json m db).1)
        ≡ get_object_mapping bolt json b k db
  unfolding put_object_mapping
  put_object_mapping-err m e db b k h = elim (Option-cases (json.marshal m)) [
    | inl n ↦ rw (put_object_mapping, n) refl
    | inr (v, j) ↦ get_object_mapping-lookup b k ((put_object_mapping bolt json m db).1) db (
        rw (
          put_object_mapping,
          j,
          update-err bolt (put_tx bolt json m v) db e (rw (put_object_mapping, j) at h),
        ))
  ]

  put_tx-fits :
      (m : ObjectMapping) (v : Bytes) (d : Db bolt) {e : Db bolt}
      → put_tx bolt json m v d ≡ ok e
      → length m.bucket + length m.key < max_key_size
  unfolding put_tx put_in key_fits
  put_tx-fits m v d h = ground (arith, length-object_map_key m.bucket m.key)

  fits-put_tx :
      (m : ObjectMapping) (v : Bytes) (d : Db bolt)
      → length m.bucket + length m.key < max_key_size
      → put_tx bolt json m v d
        ≡ ok (record d { objects = bolt.put (object_map_key m.bucket m.key) v d.objects })
  unfolding put_tx put_in key_fits
  fits-put_tx m v d h = ground (arith, length-object_map_key m.bucket m.key)

  -- A put of a mapping that can be marshalled succeeds exactly if the next write transaction does
  -- not fail and the key, which is the bucket, a NUL byte and the key of the object, has at most
  -- 32,768 bytes.
  pub put_object_mapping_iff :
      (m : ObjectMapping) (v : Bytes) (db : Db bolt)
      → json.marshal m ≡ some v
      → ((put_object_mapping bolt json m db).0 ≡ ok tt)
        ↔ (NoFault bolt db × (length m.bucket + length m.key < max_key_size))
  unfolding put_object_mapping
  put_object_mapping_iff m v db j = (to, from)
    where
      to :
          (put_object_mapping bolt json m db).0 ≡ ok tt
          → NoFault bolt db × (length m.bucket + length m.key < max_key_size)
      to h = (
        update-NoFault bolt (put_tx bolt json m v) db (rw (put_object_mapping, j) at h),
        put_tx-fits m v (stepped bolt db)
            (update-ok bolt (put_tx bolt json m v) db (rw (put_object_mapping, j) at h)),
      )

      from :
          NoFault bolt db × (length m.bucket + length m.key < max_key_size)
          → (put_object_mapping bolt json m db).0 ≡ ok tt
      from (f, l) =
          rw (put_object_mapping, j)
            (ap (λ o. o.0)
              (update_ok bolt (put_tx bolt json m v) db f (fits-put_tx m v (stepped bolt db) l)))
