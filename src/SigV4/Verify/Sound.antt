-- ===== src/SigV4/Verify/Sound.antt =====
-- Which requests the header form accepts.
use pterodactyl_proxmox_back.Prelude.{
  ℤ, ◌≡◌, refl, sym, ◌≢◌, ◌↔◌, inl, inr, true, not, Option, none, some, [], ◌∷◌, ◌++◌, arith,
  Option-cases, Bytes, codes,
}
use pterodactyl_proxmox_back.Strings.{eq_bytes, has_prefix, split}
use pterodactyl_proxmox_back.Prelude.Int.{◌-ℤ◌}
use pterodactyl_proxmox_back.Prelude.Result.{ok}
use pterodactyl_proxmox_back.Http.{Request, header_get}
use pterodactyl_proxmox_back.SigV4.Scope.{
  Scope, parse_credential, scope_string, NoSlash, parse_credential_iff,
}
use pterodactyl_proxmox_back.SigV4.Canonical.{canonical_headers, Crypto}
use pterodactyl_proxmox_back.SigV4.Clock.{check_skew, Skew, IsTolerance, check_skew_iff}
use pterodactyl_proxmox_back.SigV4.AmzDate.{parse_amz_date}
use pterodactyl_proxmox_back.SigV4.AuthHeader.{ParsedAuth, is_empty, parse_authorization_header}
use pterodactyl_proxmox_back.SigV4.Verify.{
  Verifier, service_of, date_text, expected_signature, verify_header,
}
use pterodactyl_proxmox_back.Strings.Equal.{eq_bytes_iff}

-- A request that presents a credential of the verifier's, at a time that passes checkSkew, with all
-- that is to be signed.
pub record Presented (v : Verifier) (now : ℤ) (r : Request) : Type 0 where
  pub parsed : ParsedAuth
  pub scope : Scope
  pub signed_at : ℤ
  pub lines : Bytes × Bytes
  pub header : parse_authorization_header (header_get r (codes "Authorization")) ≡ some parsed
  pub credential : parsed.credential ≡ scope.access_key ++ (b'/' ∷ scope_string scope)
  pub access_key : scope.access_key ≡ v.creds.access_key
  pub no_slash : NoSlash scope
  pub service : scope.service ≡ service_of v
  pub date : parse_amz_date (date_text r) ≡ some signed_at
  pub skewed : Skew (now -ℤ signed_at) v.clock_skew
  pub payload_hash : header_get r (codes "X-Amz-Content-Sha256") ≢ []
  pub headers : canonical_headers r (split b';' parsed.signed_headers) ≡ some lines

pub not_empty_iff : (s : Bytes) → (not (is_empty s) ≡ true) ↔ (s ≢ [])
unfolding is_empty
not_empty_iff [] = (λ h. cc, λ h. absurd (h refl))
not_empty_iff (x ∷ s) = (λ h e. cc, λ h. refl)

parse_empty : parse_authorization_header [] ≡ none
unfolding parse_authorization_header has_prefix
parse_empty = refl

pub date_empty : parse_amz_date [] ≡ none
unfolding parse_amz_date
date_empty = refl

pub present_of :
    {A : Type 0} (f : Bytes → Option A) (s : Bytes) {a : A}
    → f [] ≡ none
    → f s ≡ some a
    → not (is_empty s) ≡ true
unfolding is_empty
present_of f [] h k = cc
present_of f (x ∷ s) h k = refl

module _ (c : Crypto) (v : Verifier) (tolerance : IsTolerance v.clock_skew) (now : ℤ)
    (r : Request) where
  -- An accepted request was presented with the verifier's access key and service, and carries the
  -- signature that the secret key gives for its method, path, query, signed headers and payload
  -- hash. Its time is within the tolerance of the server's, or 2^63 nanoseconds or more ahead of it.
  pub verify_header_sound :
      verify_header c v now r ≡ ok tt
      → (p : Presented v now r) × (p.parsed.signature ≡ expected_signature c v r p.scope p.lines)
  unfolding verify_header
  verify_header_sound h =
      elim (Option-cases (parse_authorization_header (header_get r (codes "Authorization")))) [
        | inl e ↦ absurd (ground arith)
        | inr (parsed, e1) ↦ elim (Option-cases (parse_credential parsed.credential)) [
          | inl e ↦ absurd (ground arith)
          | inr (scope, e2) ↦ elim (Option-cases (parse_amz_date (date_text r))) [
            | inl e ↦ absurd (ground arith)
            | inr (signed_at, e3) ↦
                elim (Option-cases (canonical_headers r (split b';' parsed.signed_headers))) [
                  | inl e ↦ absurd (ground arith)
                  | inr (lines, e4) ↦
                      let cred = (parse_credential_iff parsed.credential scope).0 e2 in
                      let key : eq_bytes scope.access_key v.creds.access_key ≡ true =
                        ground arith in
                      let serv : eq_bytes scope.service (service_of v) ≡ true = ground arith in
                      let skew : check_skew now signed_at v.clock_skew ≡ true = ground arith in
                      let hash : not (is_empty (header_get r (codes "X-Amz-Content-Sha256")))
                          ≡ true =
                        ground arith in
                      let sig : eq_bytes (expected_signature c v r scope lines) parsed.signature
                          ≡ true =
                        ground arith in
                      (
                        record {
                          parsed = parsed;
                          scope = scope;
                          signed_at = signed_at;
                          lines = lines;
                          header = e1;
                          credential = cred.0;
                          access_key = (eq_bytes_iff scope.access_key v.creds.access_key).0 key;
                          no_slash = cred.1;
                          service = (eq_bytes_iff scope.service (service_of v)).0 serv;
                          date = e3;
                          skewed = (check_skew_iff now signed_at v.clock_skew tolerance).0 skew;
                          payload_hash =
                              (not_empty_iff (header_get r (codes "X-Amz-Content-Sha256"))).0 hash;
                          headers = e4;
                        },
                        sym (
                            (eq_bytes_iff (expected_signature c v r scope lines) parsed.signature).0
                              sig),
                      )
                ]
          ]
        ]
      ]

  accepted_of_Presented :
      (p : Presented v now r)
      → p.parsed.signature ≡ expected_signature c v r p.scope p.lines
      → verify_header c v now r ≡ ok tt
  unfolding verify_header
  accepted_of_Presented p e = rw (
    present_of parse_authorization_header (header_get r (codes "Authorization")) parse_empty
        p.header,
    p.header,
    (parse_credential_iff p.parsed.credential p.scope).1 (p.credential, p.no_slash),
    (eq_bytes_iff p.scope.access_key v.creds.access_key).1 p.access_key,
    (eq_bytes_iff p.scope.service (service_of v)).1 p.service,
    present_of parse_amz_date (date_text r) date_empty p.date,
    p.date,
    (check_skew_iff now p.signed_at v.clock_skew tolerance).1 p.skewed,
    (not_empty_iff (header_get r (codes "X-Amz-Content-Sha256"))).1 p.payload_hash,
    p.headers,
    (eq_bytes_iff (expected_signature c v r p.scope p.lines) p.parsed.signature).1 (sym e),
  )

  -- A request is accepted exactly when it is presented with the verifier's access key and service,
  -- and carries the signature that the secret key gives for its method, path, query, signed headers
  -- and payload hash; and its time is within the tolerance of the server's, or 2^63 nanoseconds or
  -- more ahead of it. (The clock skew is a tolerance.)
  pub verify_header_iff :
      (verify_header c v now r ≡ ok tt)
      ↔ ((p : Presented v now r) × (p.parsed.signature ≡ expected_signature c v r p.scope p.lines))
  verify_header_iff = (verify_header_sound, λ (p, e). accepted_of_Presented p e)
