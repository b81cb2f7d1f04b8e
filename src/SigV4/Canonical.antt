-- ===== src/SigV4/Canonical.antt =====
-- internal/sigv4/canonical.go: the canonical request and the signature.
pub mod Order
pub mod Injective
pub mod Signed
use mathlib.Core.Option
use pterodactyl_proxmox_back.Prelude.{
  ℕ, Bool, true, false, ◌||◌, Option, none, some, List, [], ◌∷◌, ◌++◌, map, ◌==◌, if◌then◌else◌,
  Bytes, codes,
}
use pterodactyl_proxmox_back.Strings.{eq_bytes, lt_bytes, join}
use pterodactyl_proxmox_back.Strings.Hex.{hex}
use pterodactyl_proxmox_back.Strings.Utf8.{runes, encode_rune}
use pterodactyl_proxmox_back.Sorting.{sort}
use pterodactyl_proxmox_back.Sorting.Pairs.{less_pair}
use pterodactyl_proxmox_back.Http.{
  Request, header_values, canonical_header_key, trim_space, equal_fold,
}
use pterodactyl_proxmox_back.SigV4.Encode.{uri_encode}
use pterodactyl_proxmox_back.SigV4.Scope.{termination, Scope, scope_string}
use pterodactyl_proxmox_back.IdMap.{Sha256}

abbrev pub algorithm : Bytes
algorithm = codes "AWS4-HMAC-SHA256"

abbrev pub unsigned_payload : Bytes
unsigned_payload = codes "UNSIGNED-PAYLOAD"

abbrev pub streaming_payload : Bytes
streaming_payload = codes "STREAMING-AWS4-HMAC-SHA256-PAYLOAD"

-- `exclude[k]`, for an exclude map with at most one key
abbrev pub is_excluded : Option Bytes → Bytes → Bool
is_excluded none k = false
is_excluded (some e) k = eq_bytes e k

unfoldable pub pairs_of : Bytes → List Bytes → List (Bytes × Bytes)
pairs_of k [] = []
pairs_of k (v ∷ vs) = (uri_encode k true, uri_encode v true) ∷ pairs_of k vs

unfoldable pub query_pairs : Option Bytes → List (Bytes × List Bytes) → List (Bytes × Bytes)
unfolding pairs_of
query_pairs exclude [] = []
query_pairs exclude ((k, vs) ∷ q) =
    let rest = query_pairs exclude q in
    if is_excluded exclude k then rest else pairs_of k vs ++ rest

abbrev pub assign : Bytes × Bytes → Bytes
assign (k, v) = k ++ (b'=' ∷ v)

unfoldable pub canonical_query_string : List (Bytes × List Bytes) → Option Bytes → Bytes
unfolding query_pairs
canonical_query_string query exclude =
    join (b'&' ∷ []) (map assign (sort less_pair (query_pairs exclude query)))

is_blank : ℕ → Bool
is_blank r = r == b' ' || r == b'\t'

collapse_from : Bool → List ℕ → Bytes
collapse_from prev_space [] = []
collapse_from prev_space (r ∷ rs) =
    let rest = collapse_from (is_blank r) rs in
    if is_blank r then (if prev_space then rest else b' ' ∷ rest) else encode_rune r ++ rest

unfoldable pub collapse_spaces : Bytes → Bytes
unfolding collapse_from is_blank
collapse_spaces s = collapse_from false (runes s)

abbrev non_empty : Bytes → Option Bytes
non_empty [] = none
non_empty (c ∷ s) = some (c ∷ s)

abbrev or_else : Bytes → Bytes → Bytes
or_else [] d = d
or_else (c ∷ s) d = c ∷ s

abbrev joined_values : List Bytes → Option Bytes
joined_values [] = none
joined_values (v ∷ vs) =
    some (join (b',' ∷ []) (map (λ x. collapse_spaces (trim_space x)) (v ∷ vs)))

-- `none` where the header is not present
unfoldable pub header_value : Request → Bytes → Option Bytes
header_value r name =
    if equal_fold name (codes "host")
    then non_empty (or_else r.host r.url_host)
    else joined_values (header_values r.header (canonical_header_key name))

-- the lines `name:value`, or `none` if a signed header is not present
unfoldable pub header_lines : Request → List Bytes → Option (List Bytes)
header_lines r [] = some []
header_lines r (name ∷ names) = elim (header_value r name) [
  | none ↦ none
  | some v ↦ Option.map (λ ls. (name ++ (b':' ∷ v)) ∷ ls) (header_lines r names)
]

-- CanonicalHeaders and SignedHeaders
unfoldable pub canonical_headers : Request → List Bytes → Option (Bytes × Bytes)
canonical_headers r signed_header_names =
    let names = sort lt_bytes signed_header_names in
    Option.map (λ ls. (join (b'\n' ∷ []) ls ++ (b'\n' ∷ []), join (b';' ∷ []) names))
      (header_lines r names)

unfoldable pub build_canonical_request : Bytes → Bytes → Bytes → Bytes → Bytes → Bytes → Bytes
build_canonical_request method uri query headers signed_headers payload_hash =
    join (b'\n' ∷ []) (method ∷ uri ∷ query ∷ headers ∷ signed_headers ∷ payload_hash ∷ [])

unfoldable pub string_to_sign : Bytes → Scope → Bytes → Bytes
string_to_sign amz_date scope canonical_request_hash =
    join (b'\n' ∷ []) (algorithm ∷ amz_date ∷ scope_string scope ∷ canonical_request_hash ∷ [])

-- crypto/sha256 and crypto/hmac
pub record Crypto : Type 0 where
  pub sha : Sha256
  pub hmac : Bytes → Bytes → Bytes

module _ (c : Crypto) where
  unfoldable pub hash_hex : Bytes → Bytes
  hash_hex s = hex (c.sha.sum s)

  unfoldable pub signing_key : Bytes → Scope → Bytes
  signing_key secret scope =
      let k_date = c.hmac (codes "AWS4" ++ secret) scope.date in
      let k_region = c.hmac k_date scope.region in
      let k_service = c.hmac k_region scope.service in c.hmac k_service termination

  unfoldable pub sign : Bytes → Scope → Bytes → Bytes
  sign secret scope str_to_sign = hex (c.hmac (signing_key secret scope) str_to_sign)

-- hmac.Equal
abbrev pub secure_compare : Bytes → Bytes → Bool
secure_compare a b = eq_bytes a b
