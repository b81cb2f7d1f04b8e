-- ===== src/S3Api.antt =====
-- internal/s3api: what the handlers are given and what they answer (backend.go, errors.go,
-- xmlresp.go).
pub mod Dates
pub mod Range
pub mod Etag
pub mod Route
pub mod Objects
pub mod Uploads
pub mod Toy
pub mod Serve
pub mod Laws
pub mod Length
pub mod Tests
use pterodactyl_proxmox_back.Prelude.{
  ℤ, ℕ, Bool, false, ◌||◌, Option, List, [], ◌∷◌, ◌++◌, if◌then◌else◌, Bytes, codes,
}
use pterodactyl_proxmox_back.Prelude.Result.{Result}
use pterodactyl_proxmox_back.Strings.{eq_bytes}

-- backend.go
pub record ObjectInfo : Type 0 where
  pub key : Bytes
  pub size : ℤ
  pub etag : Bytes
  pub last_modified : ℕ

pub record Part : Type 0 where
  pub part_number : ℤ
  pub etag : Bytes
  pub size : ℤ
  pub last_modified : ℕ

pub record RangeSpec : Type 0 where
  pub start : ℤ
  pub end_ : ℤ

-- what errors.Is tells of an error of a Backend
pub data BackendError : Type 0 where
  err_not_found other_failure : BackendError

-- the body of a request: the bytes that can be read, and whether reading then fails
pub record Stream : Type 0 where
  pub content : Bytes
  pub is_broken : Bool

-- the interface Backend over the state of an implementation
pub record Backend : Type 1 where
  pub State : Type 0
  pub put_object : Bytes → Bytes → Stream → State → Result BackendError ObjectInfo × State
  pub get_object :
      Bytes → Bytes → Option RangeSpec → State → Result BackendError (Bytes × ObjectInfo) × State
  pub head_object : Bytes → Bytes → State → Result BackendError ObjectInfo × State
  pub delete_object : Bytes → Bytes → State → Result BackendError (Unit {0}) × State
  pub list_objects :
      Bytes
      → Bytes
      → Bytes
      → Bytes
      → ℤ
      → State
      → Result BackendError (List ObjectInfo × List Bytes × Bool) × State
  pub create_multipart_upload : Bytes → Bytes → State → Result BackendError Bytes × State
  pub upload_part : Bytes → Bytes → Bytes → ℤ → Stream → State → Result BackendError Bytes × State
  pub list_parts : Bytes → Bytes → Bytes → State → Result BackendError (List Part) × State
  pub complete_multipart_upload :
      Bytes → Bytes → Bytes → List Part → State → Result BackendError ObjectInfo × State
  pub abort_multipart_upload :
      Bytes → Bytes → Bytes → State → Result BackendError (Unit {0}) × State

-- the documents that are written as XML
pub record ErrorDocument : Type 0 where
  pub code : Bytes
  pub message : Bytes
  pub resource : Bytes
  pub request_id : Bytes

pub record ListedObject : Type 0 where
  pub key : Bytes
  pub last_modified : Bytes
  pub etag : Bytes
  pub size : ℤ
  pub storage_class : Bytes

pub record ListBucketResult : Type 0 where
  pub name : Bytes
  pub prefix : Bytes
  pub key_count : ℕ
  pub max_keys : ℤ
  pub is_truncated : Bool
  pub contents : List ListedObject
  pub common_prefixes : List Bytes

pub record ListedPart : Type 0 where
  pub part_number : ℤ
  pub etag : Bytes
  pub size : ℤ
  pub last_modified : Bytes

pub data Body : Type 0 where
  no_body : Body
  content_body : Bytes → Body
  error_body : ErrorDocument → Body
  -- the bucket, the key and the upload id; the bucket, the key and the ETag
  initiated_body : Bytes → Bytes → Bytes → Body
  completed_body : Bytes → Bytes → Bytes → Body
  listing_body : ListBucketResult → Body
  -- the bucket, the key, the upload id and the parts
  parts_body : Bytes → Bytes → Bytes → List ListedPart → Body

-- the header fields that a handler has set
pub record Response : Type 0 where
  pub status : ℕ
  pub fields : List (Bytes × Bytes)
  pub body : Body

is_one_of : Bytes → List Bytes → Bool
is_one_of s [] = false
is_one_of s (t ∷ ts) = eq_bytes s t || is_one_of s ts

-- statusForCode
unfoldable pub status_for_code : Bytes → ℕ
unfolding is_one_of
status_for_code code =
    if is_one_of code (codes "NoSuchBucket" ∷ codes "NoSuchKey" ∷ codes "NoSuchUpload" ∷ [])
    then 404
    else if is_one_of code (
        codes "SignatureDoesNotMatch"
        ∷ codes "AccessDenied"
        ∷ codes "InvalidAccessKeyId"
        ∷ codes "RequestTimeTooSkewed"
        ∷ [])
    then 403
    else if is_one_of code (
        codes "InvalidArgument"
        ∷ codes "InvalidPart"
        ∷ codes "InvalidPartOrder"
        ∷ codes "EntityTooSmall"
        ∷ codes "MalformedXML"
        ∷ codes "BadDigest"
        ∷ [])
    then 400
    else 500

-- what a handler knows of its request besides its arguments
pub record Context : Type 0 where
  pub path : Bytes
  pub request_id : Bytes

unfoldable pub write_error_code : Context → Bytes → Bytes → Response
write_error_code ctx code message = record {
  status = status_for_code code;
  fields =
      (codes "Content-Type", codes "application/xml")
      ∷ (codes "x-amz-request-id", ctx.request_id)
      ∷ [];
  body =
      error_body (record {
        code = code;
        message = message;
        resource = ctx.path;
        request_id = ctx.request_id;
      });
}

unfoldable pub write_internal_error : Context → Response
write_internal_error ctx =
    write_error_code ctx (codes "InternalError")
      (codes "an internal error occurred; see bridge server logs for request_id " ++ ctx.request_id)

unfoldable pub write_xml : ℕ → Body → Response
write_xml status body = record {
  status = status;
  fields = (codes "Content-Type", codes "application/xml") ∷ [];
  body = body;
}
