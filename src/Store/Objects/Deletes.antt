-- ===== src/Store/Objects/Deletes.antt =====
-- internal/store/objects.go: what a get finds after a delete.
use pterodactyl_proxmox_back.Prelude.{
  ◌≡◌, refl, ◌≢◌, Bool, true, false, ◌&&◌, Option, none, some, arith, if◌then◌else◌, Bytes,
}
use pterodactyl_proxmox_back.Bolt.{Bolt}
use pterodactyl_proxmox_back.Prelude.Result.{ok, err}
use pterodactyl_proxmox_back.Store.{not_found, Json, Db}
use pterodactyl_proxmox_back.Store.Objects.{
  ObjectMapping, delete_tx, get_object_mapping, delete_object_mapping, delete_found,
}
use pterodactyl_proxmox_back.Strings.{eq_bytes}
use pterodactyl_proxmox_back.Strings.Split.{NoByte}
use pterodactyl_proxmox_back.Bolt.Lists.{lookup, lookup-remove_pair}
use pterodactyl_proxmox_back.Store.Keys.{object_map_key}
use pterodactyl_proxmox_back.Store.Objects.Laws.{
  object_map_key-eq_bytes, get_object_mapping-lookup, get_object_mapping-missing,
}
use pterodactyl_proxmox_back.Store.Update.{stepped, update-ok}

module _ (bolt : Bolt) (json : Json ObjectMapping) where
  delete_found-eq-ok :
      (k : Bytes) (d : Db bolt) (o : Option Bytes) {e : Db bolt}
      → delete_found bolt json k d o ≡ ok e
      → (o ≢ none) × (e ≡ record d { objects = bolt.delete k d.objects })
  delete_found-eq-ok k d none h = cc
  delete_found-eq-ok k d (some v) h = ((λ n. cc n), ground arith)

  delete_object_mapping-ok :
      (b k : Bytes) (db : Db bolt)
      → (delete_object_mapping bolt json b k db).0 ≡ ok tt
      → (lookup (object_map_key b k) (bolt.pairs db.objects) ≢ none)
        × ((delete_object_mapping bolt json b k db).1
            ≡ record (stepped bolt db) { objects = bolt.delete (object_map_key b k) db.objects })
  unfolding delete_object_mapping delete_tx
  delete_object_mapping-ok b k db h =
      delete_found-eq-ok (object_map_key b k) (stepped bolt db)
        (lookup (object_map_key b k) (bolt.pairs db.objects))
        (update-ok bolt (delete_tx bolt json b k) db h)

  -- A delete that succeeded has deleted a mapping that was there, a get of its key finds none from
  -- then on, and any other get finds what it found before. (No bucket name has a NUL
  -- byte.)
  pub get_object_mapping-delete_object_mapping :
      (b k c j : Bytes) (db : Db bolt)
      → NoByte 0 b
      → NoByte 0 c
      → (delete_object_mapping bolt json b k db).0 ≡ ok tt
      → (get_object_mapping bolt json b k db ≢ err not_found)
        × (get_object_mapping bolt json c j ((delete_object_mapping bolt json b k db).1) ≡ (
            if eq_bytes b c && eq_bytes k j
            then err not_found
            else get_object_mapping bolt json c j db))
  get_object_mapping-delete_object_mapping b k c j db hb hc h = (
    (λ n.
        (delete_object_mapping-ok b k db h).0 ((get_object_mapping-missing bolt json b k db).1 n)),
    got (eq_bytes b c && eq_bytes k j) refl,
  )
    where
      lookup_delete :
          lookup
            (object_map_key c j)
            (bolt.pairs ((delete_object_mapping bolt json b k db).1).objects)
          ≡ (if eq_bytes b c && eq_bytes k j
              then none
              else lookup (object_map_key c j) (bolt.pairs db.objects))
      lookup_delete = rw (
        (delete_object_mapping-ok b k db h).1,
        bolt.pairs_delete (object_map_key b k) db.objects,
        lookup-remove_pair (object_map_key b k) (object_map_key c j) (bolt.pairs db.objects),
        object_map_key-eq_bytes bolt json b k c j hb hc,
      )

      got :
          (same : Bool)
          → eq_bytes b c && eq_bytes k j ≡ same
          → get_object_mapping bolt json c j ((delete_object_mapping bolt json b k db).1)
            ≡ (if same then err not_found else get_object_mapping bolt json c j db)
      got true e =
          (get_object_mapping-missing bolt json c j ((delete_object_mapping bolt json b k db).1)).0
            (rw e at lookup_delete)
      got false e =
          get_object_mapping-lookup bolt json c j ((delete_object_mapping bolt json b k db).1) db
            (rw e at lookup_delete)
