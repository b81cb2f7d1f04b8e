-- ===== src/S3Api/Objects.antt =====
-- internal/s3api: the handlers of objects (get_object.go, head_object.go, put_object.go,
-- delete_object.go and list_objects.go).
use pterodactyl_proxmox_back.Prelude.{
  ℤ, pos, Bool, not, ◌&&◌, Option, none, some, List, [], ◌∷◌, ◌++◌, map, if◌then◌else◌, Bytes,
  codes, length,
}
use pterodactyl_proxmox_back.Prelude.Int.{◌+ℤ◌, ◌-ℤ◌, ltb_ℤ}
use pterodactyl_proxmox_back.Prelude.Result.{Result, ok, err}
use pterodactyl_proxmox_back.Http.{Request, query_values, query_get}
use pterodactyl_proxmox_back.S3Api.{
  ObjectInfo, RangeSpec, BackendError, err_not_found, other_failure, Stream, Backend, ListedObject,
  no_body, content_body, listing_body, Response, Context, write_error_code, write_internal_error,
  write_xml,
}
use pterodactyl_proxmox_back.S3Api.Dates.{format_millis, format_http}
use pterodactyl_proxmox_back.S3Api.Range.{parse_range}
use pterodactyl_proxmox_back.S3Api.Etag.{quote_etag}
use pterodactyl_proxmox_back.Strings.Decimal.{itoa}
use pterodactyl_proxmox_back.Strings.Number.{atoi}

-- queryInt
abbrev int_or : ℤ → Option ℤ → ℤ
int_or d none = d
int_or d (some n) = n

abbrev first_int : ℤ → Option (List Bytes) → ℤ
first_int d none = d
first_int d (some []) = d
first_int d (some (v ∷ vs)) = int_or d (atoi v)

unfoldable pub query_int : List (Bytes × List Bytes) → Bytes → ℤ → ℤ
query_int query key d = first_int d (query_values query key)

unfoldable pub listed_object : ObjectInfo → ListedObject
listed_object o = record {
  key = o.key;
  last_modified = format_millis o.last_modified;
  etag = quote_etag o.etag;
  size = o.size;
  storage_class = codes "STANDARD";
}

-- the number of keys of a page
unfoldable pub page_size : ℤ → ℤ
page_size n = if ltb_ℤ (pos 0) n && not (ltb_ℤ (pos 1000) n) then n else pos 1000

module _ (b : Backend) where
  abbrev pub Handled : Type 0
  Handled = Response × b.State

  -- an answer to a failed call: what is said when the object is not there
  abbrev pub failed_with : Context → Bytes → Bytes → BackendError → Response
  failed_with ctx code message err_not_found = write_error_code ctx code message
  failed_with ctx code message other_failure = write_internal_error ctx

  abbrev pub no_such_key : Context → BackendError → Response
  no_such_key ctx e =
      failed_with ctx (codes "NoSuchKey") (codes "the specified key does not exist") e

  -- `Range` header: no range, a range, or `none` for one that is not valid
  abbrev pub range_spec : Bytes → ℤ → Option (Option RangeSpec)
  range_spec [] size = some none
  range_spec (c ∷ s) size = elim (parse_range (c ∷ s) size) [
    | none ↦ none
    | some (start, end_) ↦ some (some (record { start = start; end_ = end_ }))
  ]

  abbrev pub object_fields : ObjectInfo → List (Bytes × Bytes)
  object_fields info =
      (codes "ETag", quote_etag info.etag)
      ∷ (codes "Last-Modified", format_http info.last_modified)
      ∷ (codes "Accept-Ranges", codes "bytes")
      ∷ []

  abbrev pub content_range : RangeSpec → ObjectInfo → Bytes
  content_range r info =
      codes "bytes " ++ itoa r.start ++ (b'-' ∷ itoa r.end_) ++ (b'/' ∷ itoa info.size)

  abbrev pub content_response : Option RangeSpec → ObjectInfo → Bytes → Response
  content_response none info content = record {
    status = 200;
    fields = object_fields info ++ ((codes "Content-Length", itoa info.size) ∷ []);
    body = content_body content;
  }
  content_response (some r) info content = record {
    status = 206;
    fields =
        object_fields info
        ++ ((codes "Content-Range", content_range r info)
            ∷ (codes "Content-Length", itoa (r.end_ -ℤ r.start +ℤ pos 1))
            ∷ []);
    body = content_body content;
  }

  abbrev pub get_answer :
      Context
      → Option RangeSpec
      → ObjectInfo
      → Result BackendError (Bytes × ObjectInfo) × b.State
      → Handled
  get_answer ctx spec info (ok (content, _), s) = (content_response spec info content, s)
  get_answer ctx spec info (err e, s) = (no_such_key ctx e, s)

  abbrev invalid_range : Context → ObjectInfo → Response
  invalid_range ctx info =
      let r = write_error_code ctx (codes "InvalidArgument") (codes "invalid Range header") in
      record r { fields = (codes "Content-Range", codes "bytes */" ++ itoa info.size) ∷ r.fields }

  abbrev pub get_ranged :
      Context → Bytes → Bytes → ObjectInfo → Option (Option RangeSpec) → b.State → Handled
  get_ranged ctx bucket key info none s = (invalid_range ctx info, s)
  get_ranged ctx bucket key info (some spec) s =
      get_answer ctx spec info (b.get_object bucket key spec s)

  abbrev pub get_after_head :
      Context → Bytes → Bytes → Bytes → Result BackendError ObjectInfo × b.State → Handled
  get_after_head ctx range_header bucket key (err e, s) = (no_such_key ctx e, s)
  get_after_head ctx range_header bucket key (ok info, s) =
      get_ranged ctx bucket key info (range_spec range_header info.size) s

  -- handleGetObject, with the value of the Range header
  unfoldable pub handle_get_object : Context → Bytes → Bytes → Bytes → b.State → Handled
  handle_get_object ctx range_header bucket key s =
      get_after_head ctx range_header bucket key (b.head_object bucket key s)

  abbrev pub head_answer : Result BackendError ObjectInfo × b.State → Handled
  head_answer (ok info, s) = (
    record {
      status = 200;
      fields =
          (codes "ETag", quote_etag info.etag)
          ∷ (codes "Last-Modified", format_http info.last_modified)
          ∷ (codes "Content-Length", itoa info.size)
          ∷ [];
      body = no_body;
    },
    s,
  )
  head_answer (err err_not_found, s) = (record { status = 404; fields = []; body = no_body }, s)
  head_answer (err other_failure, s) = (record { status = 500; fields = []; body = no_body }, s)

  unfoldable pub handle_head_object : Bytes → Bytes → b.State → Handled
  handle_head_object bucket key s = head_answer (b.head_object bucket key s)

  abbrev pub with_etag : Bytes → Response
  with_etag etag = record {
    status = 200;
    fields = (codes "ETag", quote_etag etag) ∷ [];
    body = no_body;
  }

  abbrev pub put_answer : Context → Result BackendError ObjectInfo × b.State → Handled
  put_answer ctx (ok info, s) = (with_etag info.etag, s)
  put_answer ctx (err e, s) = (write_internal_error ctx, s)

  unfoldable pub handle_put_object : Context → Bytes → Bytes → Stream → b.State → Handled
  handle_put_object ctx bucket key body s = put_answer ctx (b.put_object bucket key body s)

  -- an absent object or upload is a success
  abbrev pub deleted_answer : Context → Result BackendError (Unit {0}) × b.State → Handled
  deleted_answer ctx (err other_failure, s) = (write_internal_error ctx, s)
  deleted_answer ctx (err err_not_found, s) =
      (record { status = 204; fields = []; body = no_body }, s)
  deleted_answer ctx (ok u, s) = (record { status = 204; fields = []; body = no_body }, s)

  unfoldable pub handle_delete_object : Context → Bytes → Bytes → b.State → Handled
  handle_delete_object ctx bucket key s = deleted_answer ctx (b.delete_object bucket key s)

  abbrev pub list_answer :
      Context
      → Bytes
      → Bytes
      → ℤ
      → Result BackendError (List ObjectInfo × List Bytes × Bool) × b.State
      → Handled
  list_answer ctx bucket prefix max_keys (err e, s) = (write_internal_error ctx, s)
  list_answer ctx bucket prefix max_keys (ok (objects, common, truncated), s) = (
    write_xml 200 (
        listing_body (record {
          name = bucket;
          prefix = prefix;
          key_count = length objects;
          max_keys = max_keys;
          is_truncated = truncated;
          contents = map listed_object objects;
          common_prefixes = common;
        })),
    s,
  )

  -- the start of a page
  abbrev pub start_of : Bytes → Bytes → Bytes
  start_of [] token = token
  start_of (c ∷ s) token = c ∷ s

  unfoldable pub handle_list_objects_v2 : Context → Request → Bytes → b.State → Handled
  handle_list_objects_v2 ctx r bucket s =
      let prefix = query_get r (codes "prefix") in
      let start =
        start_of (query_get r (codes "start-after")) (query_get r (codes "continuation-token")) in
      let max_keys = page_size (query_int r.query (codes "max-keys") (pos 1000)) in
      list_answer ctx bucket prefix max_keys
        (b.list_objects bucket prefix (query_get r (codes "delimiter")) start max_keys s)
