-- ===== src/SigV4/Presign.antt =====
-- internal/sigv4/presign.go: requests signed in their query, and the choice between the forms.
pub mod Sound
pub mod Tests
use pterodactyl_proxmox_back.Prelude.{ℤ, not, some, if◌then◌else◌, Bytes, codes}
use pterodactyl_proxmox_back.Strings.{eq_bytes, split}
use pterodactyl_proxmox_back.Strings.Number.{atoi}
use pterodactyl_proxmox_back.Prelude.Result.{Result, ◌>>=◌, ◌>>◌, require, or_err}
use pterodactyl_proxmox_back.Http.{Request, query_get}
use pterodactyl_proxmox_back.SigV4.Errors.{
  ErrorCode, signature_does_not_match, invalid_argument, invalid_access_key_id, missing_auth,
  expired_request,
}
use pterodactyl_proxmox_back.SigV4.Scope.{Scope, parse_credential}
use pterodactyl_proxmox_back.SigV4.Encode.{canonical_uri}
use pterodactyl_proxmox_back.SigV4.Canonical.{
  algorithm, unsigned_payload, canonical_query_string, canonical_headers, build_canonical_request,
  string_to_sign, Crypto, hash_hex, sign, secure_compare,
}
use pterodactyl_proxmox_back.SigV4.Clock.{check_expiry}
use pterodactyl_proxmox_back.SigV4.AmzDate.{parse_amz_date}
use pterodactyl_proxmox_back.SigV4.AuthHeader.{is_empty}
use pterodactyl_proxmox_back.SigV4.Verify.{Verifier, service_of, is_presigned, verify_header}

module _ (c : Crypto) (v : Verifier) where
  -- the signature that the presigned form expects
  unfoldable pub expected_presigned : Request → Scope → Bytes × Bytes → Bytes
  expected_presigned r scope (headers, names) =
      let query = canonical_query_string r.query (some (codes "X-Amz-Signature")) in
      let canonical =
        build_canonical_request r.method (canonical_uri r.path) query headers names
          unsigned_payload in
      sign c v.creds.secret_key scope
        (string_to_sign (query_get r (codes "X-Amz-Date")) scope (hash_hex c canonical))

  unfoldable pub verify_presigned : ℤ → Request → Result ErrorCode (Unit {0})
  verify_presigned now r = do
    require (eq_bytes (query_get r (codes "X-Amz-Algorithm")) algorithm) invalid_argument
    require (not (is_empty (query_get r (codes "X-Amz-Credential")))) missing_auth
    scope ← or_err (parse_credential (query_get r (codes "X-Amz-Credential"))) invalid_argument
    require (eq_bytes scope.access_key v.creds.access_key) invalid_access_key_id
    require (eq_bytes scope.service (service_of v)) invalid_argument
    require (not (is_empty (query_get r (codes "X-Amz-Date")))) missing_auth
    signed_at ← or_err (parse_amz_date (query_get r (codes "X-Amz-Date"))) invalid_argument
    expires ← or_err (atoi (query_get r (codes "X-Amz-Expires"))) invalid_argument
    require (check_expiry now signed_at expires v.clock_skew) expired_request
    require (not (is_empty (query_get r (codes "X-Amz-SignedHeaders")))) missing_auth
    lines ←
        or_err (canonical_headers r (split b';' (query_get r (codes "X-Amz-SignedHeaders"))))
          invalid_argument
    require (not (is_empty (query_get r (codes "X-Amz-Signature")))) missing_auth
    require
        (secure_compare (expected_presigned r scope lines) (query_get r (codes "X-Amz-Signature")))
        signature_does_not_match

  -- (v *Verifier) Verify
  unfoldable pub verify : ℤ → Request → Result ErrorCode (Unit {0})
  verify now r = if is_presigned r then verify_presigned now r else verify_header c v now r
