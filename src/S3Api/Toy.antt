-- ===== src/S3Api/Toy.antt =====
-- A backend that keeps one object.
use pterodactyl_proxmox_back.Prelude.{
  pos, ◌+◌, ◌-◌, false, Option, none, some, [], ◌∷◌, ◌++◌, Bytes, codes, length, take, drop,
}
use pterodactyl_proxmox_back.Prelude.Int.{pos_part}
use pterodactyl_proxmox_back.Prelude.Result.{ok}
use pterodactyl_proxmox_back.S3Api.{ObjectInfo, RangeSpec, Backend}

abbrev pub info_of : Bytes → ObjectInfo
info_of content = record {
  key = codes "k";
  size = pos (length content);
  etag = codes "e";
  last_modified = 63867219200000000000;
}

-- the bytes of a range
abbrev pub slice_of : Bytes → Option RangeSpec → Bytes
slice_of content none = content
slice_of content (some r) =
    take (pos_part r.end_ + 1 - pos_part r.start) (drop (pos_part r.start) content)

-- the state is the content of the one object
abbrev pub one_object : Backend
one_object = record {
  State = Bytes;
  put_object = λ bucket key body s. (ok (info_of body.content), body.content);
  get_object = λ bucket key r s. (ok (slice_of s r, info_of s), s);
  head_object = λ bucket key s. (ok (info_of s), s);
  delete_object = λ bucket key s. (ok tt, []);
  list_objects = λ bucket prefix delimiter start n s. (ok (info_of s ∷ [], [], false), s);
  create_multipart_upload = λ bucket key s. (ok (codes "u"), s);
  upload_part = λ bucket key upload_id n body s. (ok (codes "e"), s ++ body.content);
  list_parts = λ bucket key upload_id s. (ok [], s);
  complete_multipart_upload = λ bucket key upload_id ps s. (ok (info_of s), s);
  abort_multipart_upload = λ bucket key upload_id s. (ok tt, s);
}
