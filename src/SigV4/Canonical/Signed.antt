-- ===== src/SigV4/Canonical/Signed.antt =====
-- Two requests with one canonical request are one request, as far as it is signed.
use pterodactyl_proxmox_back.Prelude.{
  ◌≡◌, sym, ap, ◌∙◌, Option, List, ◌∷◌, ◌++◌, append_assoc, Bytes, All, IsByte,
}
use pterodactyl_proxmox_back.Strings.{join}
use pterodactyl_proxmox_back.Strings.Split.{NoByte, first_separator, last_separator}
use pterodactyl_proxmox_back.Sorting.{sort}
use pterodactyl_proxmox_back.Sorting.Pairs.{less_pair}
use pterodactyl_proxmox_back.SigV4.Encode.{canonical_uri}
use pterodactyl_proxmox_back.SigV4.Canonical.{
  query_pairs, canonical_query_string, build_canonical_request,
}
use pterodactyl_proxmox_back.SigV4.Canonical.Injective.{
  Plain-NoByte_newline, canonical_path, canonical_uri-Plain, canonical_uri_injective,
  join-assign_injective, IsByteQuery, query_pairs-PlainPair, sort-PlainPair, join-NoByte_newline,
}

-- The parts of a canonical request: r.Method, r.URL.Path, the query, CanonicalHeaders,
-- SignedHeaders and the payload hash.
pub record Parts : Type 0 where
  pub method : Bytes
  pub path : Bytes
  pub query : List (Bytes × List Bytes)
  pub headers : Bytes
  pub signed_headers : Bytes
  pub payload_hash : Bytes

abbrev pub assemble : Option Bytes → Parts → Bytes
assemble exclude p =
    build_canonical_request p.method (canonical_uri p.path) (canonical_query_string p.query exclude)
      p.headers p.signed_headers p.payload_hash

-- Go strings, with no newline in a method, in the names of the signed headers and in the hash.
pub record IsWellFormed (p : Parts) : Type 0 where
  pub method : NoByte b'\n' p.method
  pub path : All IsByte p.path
  pub query : IsByteQuery p.query
  pub signed_headers : NoByte b'\n' p.signed_headers
  pub payload_hash : NoByte b'\n' p.payload_hash

-- What two requests agree on.
pub record SameSigned (exclude : Option Bytes) (p q : Parts) : Type 0 where
  pub method : p.method ≡ q.method
  pub path : canonical_path p.path ≡ canonical_path q.path
  pub query :
      sort less_pair (query_pairs exclude p.query) ≡ sort less_pair (query_pairs exclude q.query)
  pub headers : p.headers ≡ q.headers
  pub signed_headers : p.signed_headers ≡ q.signed_headers
  pub payload_hash : p.payload_hash ≡ q.payload_hash

module _ (exclude : Option Bytes) where
  query_line : Parts → Bytes
  query_line p = canonical_query_string p.query exclude

  query-NoByte_newline : {p : Parts} → IsWellFormed p → NoByte b'\n' (query_line p)
  unfolding query_line canonical_query_string
  query-NoByte_newline {p} w =
      join-NoByte_newline _ (sort-PlainPair _ (query_pairs-PlainPair p.query exclude w.query))

  query_injective :
      {p q : Parts}
      → IsWellFormed p
      → IsWellFormed q
      → query_line p ≡ query_line q
      → sort less_pair (query_pairs exclude p.query) ≡ sort less_pair (query_pairs exclude q.query)
  unfolding query_line canonical_query_string
  query_injective {p} {q} w v e =
      join-assign_injective _ _ (sort-PlainPair _ (query_pairs-PlainPair p.query exclude w.query))
        (sort-PlainPair _ (query_pairs-PlainPair q.query exclude v.query)) e

  -- the canonical request from the left
  assemble-lines :
      (p : Parts)
      → assemble exclude p
        ≡ p.method
          ++ (b'\n' ∷ canonical_uri p.path
              ++ (b'\n' ∷ query_line p
                  ++ (b'\n' ∷ (p.headers ++ (b'\n' ∷ p.signed_headers))
                      ++ (b'\n' ∷ p.payload_hash))))
  unfolding query_line build_canonical_request join
  assemble-lines p =
      ap
        (λ t.
          p.method ++ (b'\n' ∷ (canonical_uri p.path ++ (b'\n' ∷ (query_line p ++ (b'\n' ∷ t))))))
        (sym (append_assoc p.headers (b'\n' ∷ p.signed_headers) (b'\n' ∷ p.payload_hash)))

  -- A canonical request determines the method, the path (an empty one read as the root), the
  -- encoded query pairs in sorted order, the canonical headers, the signed header names and the
  -- payload hash of the request that it was built from.
  pub assemble_injective :
      (p q : Parts)
      → IsWellFormed p
      → IsWellFormed q
      → assemble exclude p ≡ assemble exclude q
      → SameSigned exclude p q
  assemble_injective p q w v e =
      let l = sym (assemble-lines p) ∙ e ∙ assemble-lines q in
      let (method, r1) = first_separator b'\n' p.method q.method _ _ w.method v.method l in
      let (uri, r2) =
        first_separator b'\n' (canonical_uri p.path) (canonical_uri q.path) _ _
          (Plain-NoByte_newline _ (canonical_uri-Plain p.path w.path))
          (Plain-NoByte_newline _ (canonical_uri-Plain q.path v.path)) r1 in
      let (query, r3) =
        first_separator b'\n' (query_line p) (query_line q) _ _ (query-NoByte_newline w)
          (query-NoByte_newline v) r2 in
      let (front, hash) =
        last_separator b'\n' _ _ p.payload_hash q.payload_hash w.payload_hash v.payload_hash r3 in
      let (headers, names) =
        last_separator b'\n' p.headers q.headers p.signed_headers q.signed_headers w.signed_headers
          v.signed_headers front in
      record {
        method = method;
        path = canonical_uri_injective p.path q.path w.path v.path uri;
        query = query_injective w v query;
        headers = headers;
        signed_headers = names;
        payload_hash = hash;
      }
