-- ===== src/SigV4/Verify/Tests.antt =====
-- A header-signed request, and the theorems at it.
use pterodactyl_proxmox_back.Prelude.{ℤ, pos, ◌≡◌, refl, ◌↔◌, [], ◌∷◌, ◌++◌, arith, Bytes, codes}
use pterodactyl_proxmox_back.Samples.{toy_crypto}
use pterodactyl_proxmox_back.Http.{
  Request, header_get, canonical_header_key, trim_space, equal_fold,
}
use pterodactyl_proxmox_back.SigV4.Verify.{
  Verifier, service_of, date_text, expected_signature, verify_header,
}
use pterodactyl_proxmox_back.SigV4.Scope.{parse_credential, scope_string}
use pterodactyl_proxmox_back.Prelude.Result.{ok}
use pterodactyl_proxmox_back.Strings.{eq_bytes, lt_bytes, has_prefix, cut, split, join, contains}
use pterodactyl_proxmox_back.Strings.Hex.{hex}
use pterodactyl_proxmox_back.Strings.Utf8.{decode_rune, runes, encode_rune}
use pterodactyl_proxmox_back.Sorting.{sort}
use pterodactyl_proxmox_back.Sorting.Pairs.{less_pair}
use pterodactyl_proxmox_back.Prelude.Int.{◌-ℤ◌}
use pterodactyl_proxmox_back.SigV4.Encode.{uri_encode, canonical_uri}
use pterodactyl_proxmox_back.SigV4.Canonical.{
  canonical_query_string, collapse_spaces, header_value, header_lines, canonical_headers,
  build_canonical_request, string_to_sign, hash_hex, signing_key, sign,
}
use pterodactyl_proxmox_back.SigV4.Clock.{check_skew, IsTolerance}
use pterodactyl_proxmox_back.SigV4.AmzDate.{parse_amz_date}
use pterodactyl_proxmox_back.SigV4.AuthHeader.{parse_authorization_header}
use pterodactyl_proxmox_back.SigV4.Verify.Sound.{Presented, verify_header_iff}

abbrev verifier : Verifier
verifier = record {
  creds = record { access_key = codes "AK"; secret_key = codes "SK" };
  service = [];
  clock_skew = pos 900000000000;
}

abbrev signed_with : Bytes → Request
signed_with signature = record {
  method = codes "GET";
  path = codes "/b/k y";
  host = codes "h";
  url_host = [];
  header =
      (codes "X-Amz-Date", codes "20130524T000000Z")
      ∷ (codes "X-Amz-Content-Sha256", codes "UNSIGNED-PAYLOAD")
      ∷ (
        codes "Authorization",
        codes
              "AWS4-HMAC-SHA256 Credential=AK/20130524/eu/s3/aws4_request, SignedHeaders=host;x-amz-date, Signature="
            ++ signature,
      )
      ∷ [];
  query = (codes "uploads", [] ∷ []) ∷ [];
}

abbrev request : Request
request = signed_with (codes "6363")

abbrev request_time : ℤ
request_time = pos 63536572800000000000

tolerated : IsTolerance verifier.clock_skew
tolerated = (omega arith, omega arith)

accepted : verify_header toy_crypto verifier request_time request ≡ ok tt
unfolding verify_header expected_signature parse_authorization_header has_prefix split cut
    trim_space eq_bytes parse_credential service_of date_text parse_amz_date check_skew ◌-ℤ◌
    canonical_headers header_lines header_value header_get equal_fold runes decode_rune
    canonical_header_key contains collapse_spaces encode_rune sort lt_bytes less_pair join
    canonical_query_string canonical_uri uri_encode build_canonical_request string_to_sign
    scope_string sign signing_key hash_hex hex
accepted = refl

verify_header_iff_example : (verify_header toy_crypto verifier request_time request ≡ ok tt) ↔ (
    (p : Presented verifier request_time request) × (p.parsed.signature
      ≡ expected_signature toy_crypto verifier request p.scope p.lines))
verify_header_iff_example = verify_header_iff toy_crypto verifier tolerated request_time request
