-- ===== src/Store/Objects/Tests.antt =====
-- Two mappings of one bucket and the theorems at them, with a JSON that writes the texts between
-- line feeds.
use pterodactyl_proxmox_back.Prelude.{
  pos, ◌≡◌, refl, true, none, some, List, [], ◌∷◌, ◌++◌, Bytes, codes,
}
use pterodactyl_proxmox_back.Bolt.{key_fits}
use pterodactyl_proxmox_back.Bolt.Lists.{IsSorted}
use pterodactyl_proxmox_back.Prelude.Result.{ok}
use pterodactyl_proxmox_back.Samples.{toy_bolt, empty_db}
use pterodactyl_proxmox_back.Store.{Json, RoundTrips, Db, update, put_in}
use pterodactyl_proxmox_back.Store.Keys.{object_map_key}
use pterodactyl_proxmox_back.Store.Objects.{ObjectMapping, put_tx, put_object_mapping, list_objects}
use pterodactyl_proxmox_back.Store.Objects.Listing.{is_listed, listed, Holds, list_objects-listed}
use pterodactyl_proxmox_back.Strings.{eq_bytes, lt_bytes, has_prefix, cut}
use pterodactyl_proxmox_back.Strings.Split.{NoByte}

abbrev mapping : Bytes → ObjectMapping
mapping key = record {
  bucket = codes "bk";
  key = key;
  namespace = [];
  pbs_backup_type = codes "host";
  pbs_backup_id = codes "id";
  pbs_backup_time = pos 1700000000;
  size = pos 3;
  etag = codes "e";
  updated_at = 0;
}

-- only the key and the bucket are written
abbrev json : Json ObjectMapping
json = record {
  marshal = λ m. some (m.bucket ++ (10 ∷ m.key));
  unmarshal =
      λ v. elim (cut 10 v) [ none ↦ none | some (b, k) ↦ some (record (mapping k) { bucket = b }) ];
}

abbrev m1 : ObjectMapping
m1 = mapping (codes "a/1")

abbrev m2 : ObjectMapping
m2 = mapping (codes "a/2")

abbrev v1 : Bytes
v1 = codes "bk" ++ (10 ∷ codes "a/1")

m1-RoundTrips : RoundTrips json m1 v1
unfolding cut
m1-RoundTrips = (refl, refl)

-- `bk` has no NUL byte
bk-NoByte : NoByte 0 (codes "bk")
bk-NoByte = ((λ e. cc e), ((λ e. cc e), tt))

m1-put : (put_object_mapping toy_bolt json m1 (empty_db [])).0 ≡ ok tt
unfolding put_object_mapping put_tx put_in key_fits update object_map_key
m1-put = refl

-- a database with both mappings
abbrev both : List (Bytes × Bytes)
both =
    (codes "bk" ++ (0 ∷ codes "a/1"), codes "bk" ++ (10 ∷ codes "a/1"))
    ∷ (codes "bk" ++ (0 ∷ codes "a/2"), codes "bk" ++ (10 ∷ codes "a/2"))
    ∷ []

both-IsSorted : IsSorted both
unfolding lt_bytes
both-IsSorted = ((refl, tt), (tt, tt))

abbrev stored : Db toy_bolt
stored = record (empty_db []) { objects = (both, both-IsSorted) }

both-Holds : Holds toy_bolt json both (m1 ∷ m2 ∷ [])
unfolding object_map_key cut
both-Holds = ((refl, bk-NoByte, refl), ((refl, bk-NoByte, refl), tt))

list_objects-listed_example :
    list_objects toy_bolt json (codes "bk") (codes "a/") [] 1 stored ≡ ok (m1 ∷ [], true)
unfolding listed is_listed eq_bytes has_prefix
list_objects-listed_example =
    list_objects-listed toy_bolt json (codes "bk") (codes "a/") [] 1 stored (m1 ∷ m2 ∷ []) bk-NoByte
      both-Holds
