-- ===== src/Store/Multipart/Tests.antt =====
-- An upload with two parts beside another upload, and the theorems at them.
use pterodactyl_proxmox_back.Prelude.{
  pos, ℕ, ◌≡◌, refl, none, some, List, [], ◌∷◌, arith, Bytes, codes,
}
use pterodactyl_proxmox_back.Store.Multipart.Parts.{insert_part, Numbered, list_parts-put_part}
use pterodactyl_proxmox_back.Prelude.Int.{pos_part}
use pterodactyl_proxmox_back.Bolt.{key_fits}
use pterodactyl_proxmox_back.Bolt.Lists.{lookup, IsSorted}
use pterodactyl_proxmox_back.Prelude.Result.{ok, err}
use pterodactyl_proxmox_back.Samples.{toy_bolt, empty_db}
use pterodactyl_proxmox_back.Store.{not_found, Json, Db, update, put_in}
use pterodactyl_proxmox_back.Store.Keys.{part_key}
use pterodactyl_proxmox_back.Store.Multipart.{
  MultipartUpload, PartInfo, parts_of, delete_upload_tx, delete_upload, get_upload, put_part_tx,
  put_part, list_parts,
}
use pterodactyl_proxmox_back.Store.Multipart.Cascade.{delete_upload_cascade}
use pterodactyl_proxmox_back.Strings.{eq_bytes, lt_bytes, has_prefix}
use pterodactyl_proxmox_back.Strings.Split.{NoByte}
use pterodactyl_proxmox_back.Strings.Decimal.{decimal, padded}
use pterodactyl_proxmox_back.Bolt.Scan.{with_prefix}

abbrev pub upload : Bytes → ℕ → MultipartUpload
upload upload_id active = record {
  upload_id = upload_id;
  bucket = codes "bk";
  key = codes "k";
  namespace = [];
  initiated_at = pos 1;
  last_activity_at = pos active;
}

-- a JSON that writes the id and, as one byte, the last activity
abbrev pub json : Json MultipartUpload
json = record {
  marshal = λ u. some (pos_part u.last_activity_at ∷ u.upload_id);
  unmarshal = λ v. elim v [ [] ↦ none | c ∷ s ↦ some (upload s c) ];
}

abbrev pub part : ℕ → PartInfo
part n = record {
  part_number = pos n;
  etag = codes "e";
  size = pos 5;
  temp_path = codes "p";
  uploaded_at = 1;
}

abbrev pub json_part : Json PartInfo
json_part = record {
  marshal = λ p. some (pos_part p.part_number ∷ []);
  unmarshal = λ v. elim v [ [] ↦ none | c ∷ s ↦ some (part c) ];
}

abbrev pub uploads : List (Bytes × Bytes)
uploads = (codes "a", 7 ∷ codes "a") ∷ (codes "b", 9 ∷ codes "b") ∷ []

abbrev parts : List (Bytes × Bytes)
parts =
    (codes "a/00000001", 1 ∷ []) ∷ (codes "a/00000002", 2 ∷ []) ∷ (codes "b/00000001", 1 ∷ []) ∷ []

pub uploads-IsSorted : IsSorted uploads
unfolding lt_bytes
uploads-IsSorted = ((refl, tt), (tt, tt))

pub parts-IsSorted : IsSorted parts
unfolding lt_bytes
parts-IsSorted = ((refl, (refl, tt)), ((refl, tt), (tt, tt)))

abbrev pub stored : Db toy_bolt
stored = record (empty_db []) {
  multipart_uploads = (uploads, uploads-IsSorted);
  multipart_parts = (parts, parts-IsSorted);
}

pub a-NoByte : NoByte b'/' (codes "a")
a-NoByte = ((λ e. cc e), tt)

pub b-NoByte : NoByte b'/' (codes "b")
b-NoByte = ((λ e. cc e), tt)

delete_upload_cascade_example :
    (get_upload toy_bolt json (codes "a") ((delete_upload toy_bolt (codes "a") stored).1)
      ≡ err not_found)
    × (list_parts toy_bolt json_part (codes "a") ((delete_upload toy_bolt (codes "a") stored).1)
        ≡ ok [])
unfolding delete_upload delete_upload_tx update lookup eq_bytes
delete_upload_cascade_example =
    delete_upload_cascade toy_bolt json json_part (codes "a") (codes "a") stored a-NoByte a-NoByte
      refl

-- the parts of the upload `a`
a-Numbered :
    Numbered toy_bolt json_part
      (codes "a")
      (with_prefix (parts_of (codes "a")) (toy_bolt.pairs stored.multipart_parts))
      (part 1 ∷ part 2 ∷ [])
unfolding with_prefix has_prefix part_key padded decimal
a-Numbered = ((1, refl, omega arith, refl, refl), ((2, refl, omega arith, refl, refl), tt))

list_parts-put_part_example :
    list_parts toy_bolt json_part
      (codes "a")
      ((put_part toy_bolt json_part (codes "a") (part 3) stored).1)
    ≡ ok (part 1 ∷ part 2 ∷ part 3 ∷ [])
unfolding put_part put_part_tx put_in key_fits update part_key padded decimal insert_part
list_parts-put_part_example =
    list_parts-put_part toy_bolt json_part (codes "a") (3 ∷ []) 3 (part 3) stored
      (part 1 ∷ part 2 ∷ []) a-Numbered (omega arith) refl (refl, refl) refl

-- the keys above are those of partKey
part_key_two : part_key (codes "a") (pos 2) ≡ codes "a/00000002"
unfolding part_key padded decimal
part_key_two = refl
