-- ===== src/SigV4/Verify.antt =====
-- internal/sigv4/verify.go: the Verifier, and requests signed in the Authorization header. The
-- server's time is an argument.
pub mod Sound
pub mod Tests
use pterodactyl_proxmox_back.Prelude.{ℤ, Bool, not, none, [], ◌∷◌, Bytes, codes}
use pterodactyl_proxmox_back.Strings.{eq_bytes, split}
use pterodactyl_proxmox_back.Prelude.Result.{Result, ◌>>=◌, ◌>>◌, require, or_err}
use pterodactyl_proxmox_back.Http.{Request, header_get, query_get}
use pterodactyl_proxmox_back.SigV4.Errors.{
  ErrorCode, signature_does_not_match, request_time_too_skewed, invalid_argument,
  invalid_access_key_id, missing_auth,
}
use pterodactyl_proxmox_back.SigV4.Scope.{Credentials, Scope, parse_credential}
use pterodactyl_proxmox_back.SigV4.Encode.{canonical_uri}
use pterodactyl_proxmox_back.SigV4.Canonical.{
  canonical_query_string, canonical_headers, build_canonical_request, string_to_sign, Crypto,
  hash_hex, sign, secure_compare,
}
use pterodactyl_proxmox_back.SigV4.Clock.{check_skew}
use pterodactyl_proxmox_back.SigV4.AmzDate.{parse_amz_date}
use pterodactyl_proxmox_back.SigV4.AuthHeader.{is_empty, parse_authorization_header}

pub record Verifier : Type 0 where
  pub creds : Credentials
  pub service : Bytes
  pub clock_skew : ℤ

abbrev pub or_default : Bytes → Bytes → Bytes
or_default [] d = d
or_default (c ∷ s) d = c ∷ s

-- (v *Verifier) service()
unfoldable pub service_of : Verifier → Bytes
service_of v = or_default v.service (codes "s3")

unfoldable pub is_presigned : Request → Bool
unfolding is_empty
is_presigned r = not (is_empty (query_get r (codes "X-Amz-Signature")))

-- the date header that is signed
unfoldable pub date_text : Request → Bytes
date_text r = or_default (header_get r (codes "X-Amz-Date")) (header_get r (codes "Date"))

module _ (c : Crypto) (v : Verifier) where
  -- the signature that the header form expects
  unfoldable pub expected_signature : Request → Scope → Bytes × Bytes → Bytes
  expected_signature r scope (headers, names) =
      let query = canonical_query_string r.query none in
      let canonical =
        build_canonical_request r.method (canonical_uri r.path) query headers names
          (header_get r (codes "X-Amz-Content-Sha256")) in
      sign c v.creds.secret_key scope (string_to_sign (date_text r) scope (hash_hex c canonical))

  unfoldable pub verify_header : ℤ → Request → Result ErrorCode (Unit {0})
  verify_header now r = do
    require (not (is_empty (header_get r (codes "Authorization")))) missing_auth
    parsed ←
        or_err (parse_authorization_header (header_get r (codes "Authorization"))) invalid_argument
    scope ← or_err (parse_credential parsed.credential) invalid_argument
    require (eq_bytes scope.access_key v.creds.access_key) invalid_access_key_id
    require (eq_bytes scope.service (service_of v)) invalid_argument
    require (not (is_empty (date_text r))) missing_auth
    signed_at ← or_err (parse_amz_date (date_text r)) invalid_argument
    require (check_skew now signed_at v.clock_skew) request_time_too_skewed
    require (not (is_empty (header_get r (codes "X-Amz-Content-Sha256")))) missing_auth
    lines ← or_err (canonical_headers r (split b';' parsed.signed_headers)) invalid_argument
    require (secure_compare (expected_signature r scope lines) parsed.signature)
        signature_does_not_match
