-- ===== src/S3Api/Route.antt =====
-- internal/s3api/router.go: the operation of a request that has been authenticated.
use pterodactyl_proxmox_back.Prelude.{
  ◌≡◌, refl, Bool, true, false, not, ◌&&◌, Option, none, some, [], ◌∷◌, ◌++◌, if◌then◌else◌, Bytes,
  codes,
}
use pterodactyl_proxmox_back.Http.{Request, header_get, query_values}
use pterodactyl_proxmox_back.S3Api.{Stream, Backend, Context, write_error_code}
use pterodactyl_proxmox_back.S3Api.Objects.{
  Handled, handle_get_object, handle_head_object, handle_put_object, handle_delete_object,
  handle_list_objects_v2,
}
use pterodactyl_proxmox_back.S3Api.Uploads.{
  ParseXml, handle_create_multipart_upload, handle_upload_part, handle_complete_multipart_upload,
  handle_abort_multipart_upload, handle_list_parts,
}
use pterodactyl_proxmox_back.Strings.{eq_bytes, has_prefix, trim_prefix, cut}
use pterodactyl_proxmox_back.Strings.Split.{NoByte, cut-append}

abbrev bucket_and_key : Bytes → Option (Bytes × Bytes) → Bytes × Bytes
bucket_and_key trimmed none = (trimmed, [])
bucket_and_key trimmed (some (bucket, key)) = (bucket, key)

-- splitPath
unfoldable pub split_path : Bytes → Bytes × Bytes
split_path path =
    let trimmed = trim_prefix path (b'/' ∷ []) in bucket_and_key trimmed (cut b'/' trimmed)

pub data Operation : Type 0 where
  create_upload upload_part complete_upload abort_upload list_parts : Operation
  list_objects put_object get_object head_object delete_object unsupported : Operation

abbrev pub has_key : Request → Bytes → Bool
has_key r key = elim (query_values r.query key) [ none ↦ false | some vs ↦ true ]

-- the cases of the switch, where `key` tells whether there is one
unfoldable pub operation_of : Bytes → Bool → Bool → Bool → Bool → Bool → Operation
operation_of method key uploads upload_id part_number list_type =
    if eq_bytes method (codes "POST") && uploads && key
    then create_upload
    else if eq_bytes method (codes "PUT") && upload_id && part_number && key
    then upload_part
    else if eq_bytes method (codes "POST") && upload_id && key
    then complete_upload
    else if eq_bytes method (codes "DELETE") && upload_id && key
    then abort_upload
    else if eq_bytes method (codes "GET") && upload_id && key
    then list_parts
    else if eq_bytes method (codes "GET") && not key && list_type
    then list_objects
    else if eq_bytes method (codes "PUT") && key
    then put_object
    else if eq_bytes method (codes "GET") && key
    then get_object
    else if eq_bytes method (codes "HEAD") && key
    then head_object
    else if eq_bytes method (codes "DELETE") && key
    then delete_object
    else unsupported

unfoldable pub operation : Request → Bytes → Operation
operation r key =
    operation_of r.method (not (eq_bytes key [])) (has_key r (codes "uploads"))
      (has_key r (codes "uploadId")) (has_key r (codes "partNumber"))
      (has_key r (codes "list-type"))

module _ (b : Backend) (parse : ParseXml) where
  abbrev pub perform : Operation → Context → Request → Bytes → Bytes → Stream → b.State → Handled b
  perform create_upload ctx r bucket key body s = handle_create_multipart_upload b ctx bucket key s
  perform upload_part ctx r bucket key body s = handle_upload_part b ctx r bucket key body s
  perform complete_upload ctx r bucket key body s =
      handle_complete_multipart_upload b parse ctx r bucket key body s
  perform abort_upload ctx r bucket key body s = handle_abort_multipart_upload b ctx r bucket key s
  perform list_parts ctx r bucket key body s = handle_list_parts b ctx r bucket key s
  perform list_objects ctx r bucket key body s = handle_list_objects_v2 b ctx r bucket s
  perform put_object ctx r bucket key body s = handle_put_object b ctx bucket key body s
  perform get_object ctx r bucket key body s =
      handle_get_object b ctx (header_get r (codes "Range")) bucket key s
  perform head_object ctx r bucket key body s = handle_head_object b bucket key s
  perform delete_object ctx r bucket key body s = handle_delete_object b ctx bucket key s
  perform unsupported ctx r bucket key body s = (
    write_error_code ctx (codes "InvalidArgument")
        (codes "unsupported operation for " ++ r.method ++ (b' ' ∷ r.path)),
    s,
  )

  abbrev pub dispatch_to : Context → Request → Stream → Bytes × Bytes → b.State → Handled b
  dispatch_to ctx r body ([], key) s = (
    write_error_code ctx (codes "InvalidArgument")
        (codes "request path must include a bucket name"),
    s,
  )
  dispatch_to ctx r body (c ∷ bucket, key) s =
      perform (operation r key) ctx r (c ∷ bucket) key body s

  -- ServeHTTP after the authentication
  unfoldable pub dispatch : Context → Request → Stream → b.State → Handled b
  dispatch ctx r body s = dispatch_to ctx r body (split_path r.path) s

-- A path of a bucket and a key is split into them, where the bucket has no slash.
pub split_path-join :
    (bucket key : Bytes)
    → NoByte b'/' bucket
    → split_path (b'/' ∷ (bucket ++ (b'/' ∷ key))) ≡ (bucket, key)
unfolding split_path trim_prefix has_prefix
split_path-join bucket key h = rw (cut-append b'/' bucket key h) refl
