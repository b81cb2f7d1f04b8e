-- ===== src/S3Api/Serve.antt =====
-- internal/s3api/router.go: ServeHTTP, from the request to the answer. The server's time and the
-- request ID are arguments, and so is the text of an AuthError. Every error of the verification is
-- an AuthError.
pub mod Authentic
pub mod Tests
use pterodactyl_proxmox_back.Prelude.{
  ℤ, Bool, true, false, not, ◌&&◌, ◌||◌, Option, none, some, List, [], ◌∷◌, if◌then◌else◌, Bytes,
  codes,
}
use pterodactyl_proxmox_back.Prelude.Result.{Result, ok, err, ◌>>◌}
use pterodactyl_proxmox_back.Http.{Request, header_get}
use pterodactyl_proxmox_back.Strings.{eq_bytes}
use pterodactyl_proxmox_back.SigV4.Errors.{ErrorCode, invalid_argument, code_text}
use pterodactyl_proxmox_back.SigV4.Canonical.{streaming_payload, Crypto}
use pterodactyl_proxmox_back.SigV4.Verify.{Verifier, is_presigned}
use pterodactyl_proxmox_back.SigV4.Presign.{verify}
use pterodactyl_proxmox_back.SigV4.Chunked.{ChunkKey, Decoded, decode_chunked, chunk_key_of_request}
use pterodactyl_proxmox_back.S3Api.{
  Stream, Backend, content_body, Response, Context, write_error_code,
}
use pterodactyl_proxmox_back.S3Api.Uploads.{ParseXml}
use pterodactyl_proxmox_back.S3Api.Route.{dispatch}

pub record Handler : Type 1 where
  pub crypto : Crypto
  pub verifier : Verifier
  pub backend : Backend
  pub parse : ParseXml
  pub message : Request → ErrorCode → Bytes

-- the decoded bytes, as a body
abbrev pub decoded_stream : Decoded → Stream
decoded_stream d = record {
  content = d.content;
  is_broken = elim d.failure [ none ↦ false | some e ↦ true ];
}

unfoldable pub is_streaming : Request → Bool
is_streaming r =
    not (is_presigned r) && eq_bytes (header_get r (codes "X-Amz-Content-Sha256")) streaming_payload

abbrev pub request_id_field : Bytes
request_id_field = codes "x-amz-request-id"

abbrev has_field : Bytes → List (Bytes × Bytes) → Bool
has_field name [] = false
has_field name ((n, v) ∷ fields) = eq_bytes n name || has_field name fields

-- the field that ServeHTTP has set before the handler; an error sets it to the same value again
unfoldable pub tagged : Bytes → Response → Response
tagged request_id a =
    if has_field request_id_field a.fields
    then a
    else record a { fields = (request_id_field, request_id) ∷ a.fields }

abbrev pub healthy : Response
healthy = record { status = 200; fields = []; body = content_body (codes "ok") }

module _ (h : Handler) where
  abbrev pub chunked_payload : Stream → Option (ChunkKey × Bytes) → Result ErrorCode Stream
  chunked_payload body none = err invalid_argument
  chunked_payload body (some (key, seed)) =
      ok (decoded_stream (decode_chunked h.crypto key seed body.content))

  -- the body that the handlers read
  unfoldable pub authenticate : ℤ → Request → Stream → Result ErrorCode Stream
  authenticate now r body =
      verify h.crypto h.verifier now r
      >> (if is_streaming r
          then chunked_payload body (chunk_key_of_request r h.verifier.creds.secret_key)
          else ok body)

  unfoldable pub write_auth_error : Context → Request → ErrorCode → Response
  write_auth_error ctx r e = write_error_code ctx (code_text e) (h.message r e)

  abbrev pub serve_authenticated :
      Context → Request → h.backend.State → Result ErrorCode Stream → Response × h.backend.State
  serve_authenticated ctx r s (err e) = (write_auth_error ctx r e, s)
  serve_authenticated ctx r s (ok payload) = dispatch h.backend h.parse ctx r payload s

  unfoldable pub serve : ℤ → Bytes → Request → Stream → h.backend.State → Response × h.backend.State
  serve now request_id r body s =
      let ctx : Context = record { path = r.path; request_id = request_id } in
      let answer =
        if eq_bytes r.path (codes "/healthz")
        then (healthy, s)
        else serve_authenticated ctx r s (authenticate now r body) in
      (tagged request_id answer.0, answer.1)
