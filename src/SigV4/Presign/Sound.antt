-- ===== src/SigV4/Presign/Sound.antt =====
-- Which requests the presigned form accepts.
use pterodactyl_proxmox_back.Prelude.{
  ℤ, pos, ◌≡◌, refl, sym, ◌≢◌, inl, inr, true, not, none, some, [], ◌∷◌, ◌++◌, arith, Option-cases,
  Bytes, codes,
}
use pterodactyl_proxmox_back.Strings.{eq_bytes, split}
use pterodactyl_proxmox_back.Strings.Equal.{eq_bytes_iff}
use pterodactyl_proxmox_back.Strings.Number.{atoi}
use pterodactyl_proxmox_back.Prelude.Int.{◌≤ℤ◌}
use pterodactyl_proxmox_back.Prelude.Result.{ok}
use pterodactyl_proxmox_back.Http.{Request, query_get}
use pterodactyl_proxmox_back.SigV4.Scope.{
  Scope, parse_credential, scope_string, NoSlash, parse_credential_iff,
}
use pterodactyl_proxmox_back.SigV4.Canonical.{algorithm, canonical_headers, Crypto}
use pterodactyl_proxmox_back.SigV4.Clock.{check_expiry, InWindow, check_expiry_iff}
use pterodactyl_proxmox_back.SigV4.AmzDate.{parse_amz_date}
use pterodactyl_proxmox_back.SigV4.AuthHeader.{is_empty}
use pterodactyl_proxmox_back.SigV4.Verify.{Verifier, service_of}
use pterodactyl_proxmox_back.SigV4.Verify.Sound.{not_empty_iff}
use pterodactyl_proxmox_back.SigV4.Presign.{expected_presigned, verify_presigned}

-- A presigned URL with a credential of the verifier's, in its window, with all that is signed.
pub record PresentedUrl (v : Verifier) (now : ℤ) (r : Request) : Type 0 where
  pub scope : Scope
  pub signed_at : ℤ
  pub expires : ℤ
  pub lines : Bytes × Bytes
  pub algorithm_is : query_get r (codes "X-Amz-Algorithm") ≡ algorithm
  pub credential :
      query_get r (codes "X-Amz-Credential") ≡ scope.access_key ++ (b'/' ∷ scope_string scope)
  pub no_slash : NoSlash scope
  pub access_key : scope.access_key ≡ v.creds.access_key
  pub service : scope.service ≡ service_of v
  pub date : parse_amz_date (query_get r (codes "X-Amz-Date")) ≡ some signed_at
  pub seconds : atoi (query_get r (codes "X-Amz-Expires")) ≡ some expires
  pub in_time : InWindow now signed_at expires v.clock_skew
  pub signed_headers : query_get r (codes "X-Amz-SignedHeaders") ≢ []
  pub headers :
      canonical_headers r (split b';' (query_get r (codes "X-Amz-SignedHeaders"))) ≡ some lines
  pub signature : query_get r (codes "X-Amz-Signature") ≢ []

credential_empty : parse_credential [] ≡ none
unfolding parse_credential split
credential_empty = refl

module _ (c : Crypto) (v : Verifier) (now : ℤ) (r : Request)
    (short : (e : ℤ)
      → atoi (query_get r (codes "X-Amz-Expires")) ≡ some e
      → e ≤ℤ pos 9223372036) where
  -- An accepted presigned URL, of a lifetime of at most 9223372036 seconds, was presented in its
  -- window with the verifier's access key and service, and carries the signature that the secret
  -- key gives for its method, path, signed headers, and query less the signature itself.
  pub verify_presigned_sound :
      verify_presigned c v now r ≡ ok tt
      → (p : PresentedUrl v now r) × (query_get r (codes "X-Amz-Signature")
          ≡ expected_presigned c v r p.scope p.lines)
  unfolding verify_presigned
  verify_presigned_sound h =
      elim (Option-cases (parse_credential (query_get r (codes "X-Amz-Credential")))) [
        | inl e ↦ absurd (ground arith)
        | inr (scope, e2) ↦
            elim (Option-cases (parse_amz_date (query_get r (codes "X-Amz-Date")))) [
              | inl e ↦ absurd (ground arith)
              | inr (signed_at, e3) ↦
                  elim (Option-cases (atoi (query_get r (codes "X-Amz-Expires")))) [
                    | inl e ↦ absurd (ground arith)
                    | inr (expires, e5) ↦
                        elim (Option-cases (
                          canonical_headers r
                            (split b';' (query_get r (codes "X-Amz-SignedHeaders"))))) [
                              | inl e ↦ absurd (ground arith)
                              | inr (lines, e4) ↦
                                  let cred =
                                    (parse_credential_iff (query_get r (codes "X-Amz-Credential"))
                                        scope).0
                                      e2 in
                                  let alg : eq_bytes (query_get r (codes "X-Amz-Algorithm"))
                                        algorithm
                                      ≡ true =
                                    ground arith in
                                  let key : eq_bytes scope.access_key v.creds.access_key ≡ true =
                                    ground arith in
                                  let serv : eq_bytes scope.service (service_of v) ≡ true =
                                    ground arith in
                                  let expiry : check_expiry now signed_at expires v.clock_skew
                                      ≡ true =
                                    ground arith in
                                  let names : not
                                        (is_empty (query_get r (codes "X-Amz-SignedHeaders")))
                                      ≡ true =
                                    ground arith in
                                  let given : not (is_empty (query_get r (codes "X-Amz-Signature")))
                                      ≡ true =
                                    ground arith in
                                  let sig : eq_bytes (expected_presigned c v r scope lines)
                                        (query_get r (codes "X-Amz-Signature"))
                                      ≡ true =
                                    ground arith in
                                  (
                                    record {
                                      scope = scope;
                                      signed_at = signed_at;
                                      expires = expires;
                                      lines = lines;
                                      algorithm_is =
                                          (eq_bytes_iff (query_get r (codes "X-Amz-Algorithm"))
                                              algorithm).0
                                            alg;
                                      credential = cred.0;
                                      no_slash = cred.1;
                                      access_key =
                                          (eq_bytes_iff scope.access_key v.creds.access_key).0 key;
                                      service = (eq_bytes_iff scope.service (service_of v)).0 serv;
                                      date = e3;
                                      seconds = e5;
                                      in_time =
                                          (check_expiry_iff now signed_at expires v.clock_skew
                                              (short expires e5)).0
                                            expiry;
                                      signed_headers =
                                          (not_empty_iff
                                              (query_get r (codes "X-Amz-SignedHeaders"))).0
                                            names;
                                      headers = e4;
                                      signature =
                                          (not_empty_iff (query_get r (codes "X-Amz-Signature"))).0
                                            given;
                                    },
                                    sym (
                                        (eq_bytes_iff (expected_presigned c v r scope lines)
                                            (query_get r (codes "X-Amz-Signature"))).0
                                          sig),
                                  )
                            ]
                  ]
            ]
      ]
