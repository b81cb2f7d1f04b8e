-- ===== src/SigV4/Tests.antt =====
-- Credentials, encoding, canonical requests and clocks at concrete values.
use mathlib.Core.List.Perm
use pterodactyl_proxmox_back.Prelude.{
  pos, ◌≡◌, refl, ◌↔◌, true, none, some, List, [], ◌∷◌, ◌++◌, arith, Bytes, codes,
}
use pterodactyl_proxmox_back.Strings.{eq_bytes, lt_bytes, join}
use pterodactyl_proxmox_back.Sorting.{sort}
use pterodactyl_proxmox_back.Sorting.Pairs.{less_pair}
use pterodactyl_proxmox_back.Prelude.Int.{◌-ℤ◌, wrap64}
use pterodactyl_proxmox_back.SigV4.Scope.{
  Scope, parse_credential, scope_string, NoSlash, parse_credential_iff,
}
use pterodactyl_proxmox_back.SigV4.Encode.{uri_encode, canonical_uri}
use pterodactyl_proxmox_back.SigV4.Canonical.{canonical_query_string, build_canonical_request}
use pterodactyl_proxmox_back.SigV4.Canonical.Order.{canonical_query_string_perm}
use pterodactyl_proxmox_back.SigV4.Canonical.Injective.{IsByteQuery}
use pterodactyl_proxmox_back.SigV4.Canonical.Signed.{
  Parts, assemble, IsWellFormed, SameSigned, assemble_injective,
}
use pterodactyl_proxmox_back.SigV4.Clock.{
  check_skew, check_expiry, Skew, check_skew_iff, InWindow, check_expiry_iff,
}

abbrev scope : Scope
scope = record {
  access_key = codes "AK";
  date = codes "20130524";
  region = codes "eu";
  service = codes "s3";
}

parse_credential_iff_example :
    (parse_credential (codes "AK/20130524/eu/s3/aws4_request") ≡ some scope) ↔ (
      (codes "AK/20130524/eu/s3/aws4_request" ≡ codes "AK" ++ (b'/' ∷ scope_string scope))
      × NoSlash scope)
parse_credential_iff_example = parse_credential_iff (codes "AK/20130524/eu/s3/aws4_request") scope

abbrev query : List (Bytes × List Bytes)
query = (codes "b", codes "2" ∷ codes "1" ∷ []) ∷ (codes "a", codes "3" ∷ []) ∷ []

abbrev turned : List (Bytes × List Bytes)
turned = (codes "a", codes "3" ∷ []) ∷ (codes "b", codes "2" ∷ codes "1" ∷ []) ∷ []

query_line : canonical_query_string query none ≡ codes "a=3&b=1&b=2"
unfolding canonical_query_string uri_encode sort less_pair lt_bytes eq_bytes join
query_line = refl

canonical_query_string_perm_example :
    canonical_query_string query none ≡ canonical_query_string turned none
canonical_query_string_perm_example =
    canonical_query_string_perm query turned none (Perm.swap _ _ _)

abbrev parts : List (Bytes × List Bytes) → Parts
parts q = record {
  method = codes "GET";
  path = codes "/b";
  query = q;
  headers = codes "host:h\n";
  signed_headers = codes "host";
  payload_hash = codes "UNSIGNED-PAYLOAD";
}

parts-IsWellFormed : (q : List (Bytes × List Bytes)) → IsByteQuery q → IsWellFormed (parts q)
parts-IsWellFormed q h = record {
  method = omega arith;
  path = omega arith;
  query = h;
  signed_headers = omega arith;
  payload_hash = omega arith;
}

query-IsByteQuery : IsByteQuery query
query-IsByteQuery = omega arith

turned-IsByteQuery : IsByteQuery turned
turned-IsByteQuery = omega arith

assemble_alike : assemble none (parts query) ≡ assemble none (parts turned)
unfolding canonical_query_string uri_encode sort less_pair lt_bytes eq_bytes join
    build_canonical_request canonical_uri
assemble_alike = refl

assemble_injective_example : SameSigned none (parts query) (parts turned)
assemble_injective_example =
    assemble_injective none (parts query) (parts turned)
      (parts-IsWellFormed query query-IsByteQuery) (parts-IsWellFormed turned turned-IsByteQuery)
      assemble_alike

check_skew_iff_example :
    (check_skew (pos 1000) (pos 63000000000000000000) (pos 900) ≡ true)
    ↔ Skew (pos 1000 -ℤ pos 63000000000000000000) (pos 900)
check_skew_iff_example =
    check_skew_iff (pos 1000) (pos 63000000000000000000) (pos 900) (omega arith, omega arith)

far_future : check_skew (pos 1000) (pos 63000000000000000000) (pos 900) ≡ true
unfolding check_skew ◌-ℤ◌ wrap64
far_future = refl

check_expiry_iff_example :
    (check_expiry (pos 1000) (pos 10) (pos 5) (pos 0) ≡ true)
    ↔ InWindow (pos 1000) (pos 10) (pos 5) (pos 0)
check_expiry_iff_example = check_expiry_iff (pos 1000) (pos 10) (pos 5) (pos 0) (omega arith)
