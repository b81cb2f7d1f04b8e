-- ===== src/S3Api/Uploads.antt =====
-- internal/s3api: the handlers of multipart uploads (multipart_create.go,
-- multipart_upload_part.go, multipart_complete.go, multipart_abort.go and list_parts.go).
use pterodactyl_proxmox_back.Prelude.{
  ℤ, pos, ℕ, ◌||◌, Option, none, some, List, [], ◌∷◌, map, leb, if◌then◌else◌, Bytes, codes, length,
  take,
}
use pterodactyl_proxmox_back.Prelude.Int.{ltb_ℤ}
use pterodactyl_proxmox_back.Prelude.Result.{Result, ok, err}
use pterodactyl_proxmox_back.Http.{Request, query_get}
use pterodactyl_proxmox_back.S3Api.{
  ObjectInfo, Part, BackendError, Stream, Backend, ListedPart, initiated_body, completed_body,
  parts_body, Response, Context, write_error_code, write_internal_error, write_xml,
}
use pterodactyl_proxmox_back.S3Api.Dates.{format_millis}
use pterodactyl_proxmox_back.S3Api.Etag.{quote_etag, unquote_etag}
use pterodactyl_proxmox_back.S3Api.Objects.{Handled, failed_with, with_etag, deleted_answer}
use pterodactyl_proxmox_back.Strings.Number.{atoi}

-- io.ReadAll(io.LimitReader(r.Body, 10<<20))
abbrev pub body_limit : ℕ
body_limit = 10485760

unfoldable pub read_limited : Stream → Option Bytes
read_limited body =
    if leb body_limit (length body.content)
    then some (take body_limit body.content)
    else if body.is_broken
    then none
    else some body.content

unfoldable pub listed_part : Part → ListedPart
listed_part p = record {
  part_number = p.part_number;
  etag = quote_etag p.etag;
  size = p.size;
  last_modified = format_millis p.last_modified;
}

-- a part as it is named by the client
unfoldable pub named_part : ℤ × Bytes → Part
named_part (n, etag) = record {
  part_number = n;
  etag = unquote_etag etag;
  size = pos 0;
  last_modified = 31622400000000000;
}

-- an element `<Part>` of encoding/xml's Unmarshal of a completion request
abbrev pub ParseXml : Type 0
ParseXml = Bytes → Option (List (ℤ × Bytes))

-- an empty body has no parts
abbrev named_parts : ParseXml → Bytes → Option (List (ℤ × Bytes))
named_parts parse [] = some []
named_parts parse (c ∷ s) = parse (c ∷ s)

-- the test of a part's number
unfoldable pub valid_part_number : Option ℤ → Option ℤ
valid_part_number none = none
valid_part_number (some n) = if ltb_ℤ n (pos 1) || ltb_ℤ (pos 10000) n then none else some n

module _ (b : Backend) where
  abbrev pub no_such_upload : Context → BackendError → Response
  no_such_upload ctx e =
      failed_with b ctx (codes "NoSuchUpload") (codes "the specified upload does not exist") e

  abbrev pub create_answer :
      Context → Bytes → Bytes → Result BackendError Bytes × b.State → Handled b
  create_answer ctx bucket key (err e, s) = (write_internal_error ctx, s)
  create_answer ctx bucket key (ok upload_id, s) =
      (write_xml 200 (initiated_body bucket key upload_id), s)

  unfoldable pub handle_create_multipart_upload : Context → Bytes → Bytes → b.State → Handled b
  handle_create_multipart_upload ctx bucket key s =
      create_answer ctx bucket key (b.create_multipart_upload bucket key s)

  abbrev pub part_answer : Context → Result BackendError Bytes × b.State → Handled b
  part_answer ctx (err e, s) = (no_such_upload ctx e, s)
  part_answer ctx (ok etag, s) = (with_etag b etag, s)

  abbrev pub upload_numbered :
      Context → Bytes → Bytes → Bytes → Stream → Option ℤ → b.State → Handled b
  upload_numbered ctx bucket key upload_id body none s = (
    write_error_code ctx (codes "InvalidArgument") (codes "partNumber must be between 1 and 10000"),
    s,
  )
  upload_numbered ctx bucket key upload_id body (some n) s =
      part_answer ctx (b.upload_part bucket key upload_id n body s)

  unfoldable pub handle_upload_part :
      Context → Request → Bytes → Bytes → Stream → b.State → Handled b
  handle_upload_part ctx r bucket key body s =
      upload_numbered ctx bucket key (query_get r (codes "uploadId")) body
        (valid_part_number (atoi (query_get r (codes "partNumber")))) s

  abbrev pub complete_answer :
      Context → Bytes → Bytes → Result BackendError ObjectInfo × b.State → Handled b
  complete_answer ctx bucket key (err e, s) = (no_such_upload ctx e, s)
  complete_answer ctx bucket key (ok info, s) =
      (write_xml 200 (completed_body bucket key (quote_etag info.etag)), s)

  abbrev pub complete_parsed :
      Context → Bytes → Bytes → Bytes → Option (List (ℤ × Bytes)) → b.State → Handled b
  complete_parsed ctx bucket key upload_id none s = (
    write_error_code ctx (codes "MalformedXML")
        (codes "could not parse CompleteMultipartUpload body"),
    s,
  )
  complete_parsed ctx bucket key upload_id (some ps) s =
      complete_answer ctx bucket key
        (b.complete_multipart_upload bucket key upload_id (map named_part ps) s)

  abbrev pub complete_read :
      ParseXml → Context → Bytes → Bytes → Bytes → Option Bytes → b.State → Handled b
  complete_read parse ctx bucket key upload_id none s =
      (write_error_code ctx (codes "InvalidArgument") (codes "failed to read request body"), s)
  complete_read parse ctx bucket key upload_id (some body) s =
      complete_parsed ctx bucket key upload_id (named_parts parse body) s

  unfoldable pub handle_complete_multipart_upload :
      ParseXml → Context → Request → Bytes → Bytes → Stream → b.State → Handled b
  handle_complete_multipart_upload parse ctx r bucket key body s =
      complete_read parse ctx bucket key (query_get r (codes "uploadId")) (read_limited body) s

  unfoldable pub handle_abort_multipart_upload :
      Context → Request → Bytes → Bytes → b.State → Handled b
  handle_abort_multipart_upload ctx r bucket key s =
      deleted_answer b ctx (b.abort_multipart_upload bucket key (query_get r (codes "uploadId")) s)

  abbrev pub parts_answer :
      Context → Bytes → Bytes → Bytes → Result BackendError (List Part) × b.State → Handled b
  parts_answer ctx bucket key upload_id (err e, s) = (no_such_upload ctx e, s)
  parts_answer ctx bucket key upload_id (ok ps, s) =
      (write_xml 200 (parts_body bucket key upload_id (map listed_part ps)), s)

  unfoldable pub handle_list_parts : Context → Request → Bytes → Bytes → b.State → Handled b
  handle_list_parts ctx r bucket key s =
      let upload_id = query_get r (codes "uploadId") in
      parts_answer ctx bucket key upload_id (b.list_parts bucket key upload_id s)
