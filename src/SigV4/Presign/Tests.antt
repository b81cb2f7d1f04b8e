-- ===== src/SigV4/Presign/Tests.antt =====
-- A presigned URL, and the theorems at it.
use pterodactyl_proxmox_back.Prelude.{ℤ, pos, ◌≡◌, refl, some, [], ◌∷◌, arith, Bytes, codes}
use pterodactyl_proxmox_back.Samples.{toy_crypto}
use pterodactyl_proxmox_back.Http.{Request, query_get, canonical_header_key, trim_space, equal_fold}
use pterodactyl_proxmox_back.SigV4.Scope.{parse_credential, scope_string}
use pterodactyl_proxmox_back.SigV4.Canonical.{
  algorithm, canonical_query_string, collapse_spaces, header_value, header_lines, canonical_headers,
  build_canonical_request, string_to_sign, hash_hex, signing_key, sign,
}
use pterodactyl_proxmox_back.SigV4.Verify.{Verifier, service_of}
use pterodactyl_proxmox_back.SigV4.Presign.{expected_presigned, verify_presigned}
use pterodactyl_proxmox_back.Strings.{eq_bytes, lt_bytes, has_prefix, split, join, contains}
use pterodactyl_proxmox_back.Strings.Number.{parse_int, atoi}
use pterodactyl_proxmox_back.Strings.Hex.{hex}
use pterodactyl_proxmox_back.Strings.Utf8.{decode_rune, runes, encode_rune}
use pterodactyl_proxmox_back.Sorting.{sort}
use pterodactyl_proxmox_back.Sorting.Pairs.{less_pair}
use pterodactyl_proxmox_back.Prelude.Int.{◌+ℤ◌, ◌*ℤ◌, ◌≤ℤ◌, wrap64}
use pterodactyl_proxmox_back.Prelude.Result.{ok}
use pterodactyl_proxmox_back.SigV4.Encode.{uri_encode, canonical_uri}
use pterodactyl_proxmox_back.SigV4.Clock.{check_expiry}
use pterodactyl_proxmox_back.SigV4.AmzDate.{parse_amz_date}
use pterodactyl_proxmox_back.SigV4.AuthHeader.{is_empty}
use pterodactyl_proxmox_back.SigV4.Presign.Sound.{PresentedUrl, verify_presigned_sound}

abbrev verifier : Verifier
verifier = record {
  creds = record { access_key = codes "AK"; secret_key = codes "SK" };
  service = codes "s3";
  clock_skew = pos 900000000000;
}

abbrev presigned_with : Bytes → Request
presigned_with signature = record {
  method = codes "GET";
  path = codes "/b/k";
  host = codes "h";
  url_host = [];
  header = [];
  query =
      (codes "X-Amz-Signature", signature ∷ [])
      ∷ (codes "X-Amz-Algorithm", algorithm ∷ [])
      ∷ (codes "X-Amz-Credential", codes "AK/20130524/eu/s3/aws4_request" ∷ [])
      ∷ (codes "X-Amz-Date", codes "20130524T000000Z" ∷ [])
      ∷ (codes "X-Amz-Expires", codes "600" ∷ [])
      ∷ (codes "X-Amz-SignedHeaders", codes "host" ∷ [])
      ∷ [];
}

abbrev url : Request
url = presigned_with (codes "a3a3")

-- ten minutes and some clock skew after the signing time
abbrev late : ℤ
late = pos 63536573400000000000

short : (e : ℤ) → atoi (query_get url (codes "X-Amz-Expires")) ≡ some e → e ≤ℤ pos 9223372036
unfolding query_get eq_bytes parse_int
short e h = ground arith

accepted : verify_presigned toy_crypto verifier late url ≡ ok tt
unfolding verify_presigned expected_presigned query_get eq_bytes parse_int has_prefix split
    trim_space parse_credential service_of parse_amz_date check_expiry wrap64 ◌+ℤ◌ ◌*ℤ◌
    canonical_headers header_lines header_value equal_fold runes decode_rune canonical_header_key
    contains collapse_spaces encode_rune sort lt_bytes less_pair join canonical_query_string
    canonical_uri uri_encode build_canonical_request string_to_sign scope_string sign signing_key
    hash_hex hex is_empty
accepted = refl

verify_presigned_sound_example :
    (p : PresentedUrl verifier late url) × (query_get url (codes "X-Amz-Signature")
      ≡ expected_presigned toy_crypto verifier url p.scope p.lines)
verify_presigned_sound_example = verify_presigned_sound toy_crypto verifier late url short accepted
