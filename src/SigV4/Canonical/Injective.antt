-- ===== src/SigV4/Canonical/Injective.antt =====
-- What is signed determines the request, up to the hash.
use pterodactyl_proxmox_back.Prelude.{
  ◌≡◌, refl, sym, ap, ◌∙◌, ◌≢◌, inl, inr, true, false, Option, List, [], ◌∷◌, map, arith,
  Bool-cases, Bytes, All, All-append, IsByte, All-weaken,
}
use pterodactyl_proxmox_back.Strings.Split.{NoByte, split-join, first_separator}
use pterodactyl_proxmox_back.SigV4.Encode.{is_unreserved, encode_byte, uri_encode, canonical_uri}
use pterodactyl_proxmox_back.SigV4.Encode.RoundTrip.{
  percent_decode-uri_encode, Plain, uri_encode-Plain,
}
use pterodactyl_proxmox_back.SigV4.Canonical.{is_excluded, pairs_of, query_pairs, assign}
use pterodactyl_proxmox_back.Strings.{split, join}
use pterodactyl_proxmox_back.Sorting.{sort, All-sort}
use pterodactyl_proxmox_back.Sorting.Pairs.{less_pair}

pub Plain-NoByte_newline : (s : Bytes) → All Plain s → NoByte b'\n' s
Plain-NoByte_newline = All-weaken Plain (λ c. c ≢ b'\n') (λ c h. omega arith)

Plain-NoByte_amp : (s : Bytes) → All Plain s → NoByte b'&' s
Plain-NoByte_amp = All-weaken Plain (λ c. c ≢ b'&') (λ c h. h.1)

Plain-NoByte_eq : (s : Bytes) → All Plain s → NoByte b'=' s
Plain-NoByte_eq = All-weaken Plain (λ c. c ≢ b'=') (λ c h. h.2)

-- paths, where an empty path is read as the root
unfoldable pub canonical_path : Bytes → Bytes
canonical_path [] = b'/' ∷ []
canonical_path (c ∷ p) = c ∷ p

canonical_uri-uri_encode : (p : Bytes) → canonical_uri p ≡ uri_encode (canonical_path p) false
unfolding canonical_uri canonical_path
canonical_uri-uri_encode [] = unfold uri_encode encode_byte is_unreserved in refl
canonical_uri-uri_encode (c ∷ p) = refl

canonical_path-IsByte : (p : Bytes) → All IsByte p → All IsByte (canonical_path p)
unfolding canonical_path
canonical_path-IsByte [] h = (omega arith, tt)
canonical_path-IsByte (c ∷ p) h = h

pub canonical_uri-Plain : (p : Bytes) → All IsByte p → All Plain (canonical_uri p)
canonical_uri-Plain p h =
    rw (canonical_uri-uri_encode p)
      (uri_encode-Plain (canonical_path p) false (canonical_path-IsByte p h))

pub canonical_uri_injective :
    (p q : Bytes)
    → All IsByte p
    → All IsByte q
    → canonical_uri p ≡ canonical_uri q
    → canonical_path p ≡ canonical_path q
canonical_uri_injective p q hp hq e = cc (
  e,
  canonical_uri-uri_encode p,
  canonical_uri-uri_encode q,
  percent_decode-uri_encode (canonical_path p) false (canonical_path-IsByte p hp),
  percent_decode-uri_encode (canonical_path q) false (canonical_path-IsByte q hq),
)

abbrev pub PlainPair : Bytes × Bytes → Type 0
PlainPair e = All Plain e.0 × All Plain e.1

assign_injective : (a b : Bytes × Bytes) → PlainPair a → PlainPair b → assign a ≡ assign b → a ≡ b
assign_injective (k, v) (j, w) h g e =
    let (p, q) = first_separator b'=' k j v w (Plain-NoByte_eq k h.0) (Plain-NoByte_eq j g.0) e in
    λ i. (p i, q i)

map-assign_injective :
    (xs ys : List (Bytes × Bytes))
    → All PlainPair xs
    → All PlainPair ys
    → map assign xs ≡ map assign ys
    → xs ≡ ys
map-assign_injective [] [] h g e = refl
map-assign_injective [] (y ∷ ys) h g e = cc
map-assign_injective (x ∷ xs) [] h g e = cc
map-assign_injective (x ∷ xs) (y ∷ ys) h g e =
    cc (assign_injective x y h.0 g.0 cc, map-assign_injective xs ys h.1 g.1 cc)

assign-NoByte_amp : (e : Bytes × Bytes) → PlainPair e → NoByte b'&' (assign e)
assign-NoByte_amp (k, v) h =
    All-append (λ c. c ≢ b'&') k (b'=' ∷ v) (Plain-NoByte_amp k h.0)
      (omega arith, Plain-NoByte_amp v h.1)

assign-ne-nil : (e : Bytes × Bytes) → assign e ≢ []
assign-ne-nil ([], v) h = cc
assign-ne-nil (c ∷ k, v) h = cc

split_blank : split b'&' [] ≡ [] ∷ []
unfolding split
split_blank = refl

join_none : join (b'&' ∷ []) [] ≡ []
unfolding join
join_none = refl

one_line : (k v : Bytes) → PlainPair (k, v) → NoByte b'\n' (assign (k, v))
one_line k v h =
    All-append (λ c. c ≢ b'\n') k (b'=' ∷ v) (Plain-NoByte_newline k h.0)
      (omega arith, Plain-NoByte_newline v h.1)

map-assign-NoByte_amp :
    (xs : List (Bytes × Bytes)) → All PlainPair xs → All (NoByte b'&') (map assign xs)
map-assign-NoByte_amp [] h = tt
map-assign-NoByte_amp (x ∷ xs) h = (assign-NoByte_amp x h.0, map-assign-NoByte_amp xs h.1)

pub join-assign_injective :
    (xs ys : List (Bytes × Bytes))
    → All PlainPair xs
    → All PlainPair ys
    → join (b'&' ∷ []) (map assign xs) ≡ join (b'&' ∷ []) (map assign ys)
    → xs ≡ ys
join-assign_injective [] [] h g e = refl
join-assign_injective [] (y ∷ ys) h g e = absurd (
    assign-ne-nil y (
      cc (
        split-join b'&' (assign y) (map assign ys) (map-assign-NoByte_amp (y ∷ ys) g),
        split_blank,
        join_none,
      )))
join-assign_injective (x ∷ xs) [] h g e = absurd (
    assign-ne-nil x (
      cc (
        split-join b'&' (assign x) (map assign xs) (map-assign-NoByte_amp (x ∷ xs) h),
        split_blank,
        join_none,
      )))
join-assign_injective (x ∷ xs) (y ∷ ys) h g e = map-assign_injective (x ∷ xs) (y ∷ ys) h g (
    sym (split-join b'&' (assign x) (map assign xs) (map-assign-NoByte_amp (x ∷ xs) h))
    ∙ ap (split b'&') e
    ∙ split-join b'&' (assign y) (map assign ys) (map-assign-NoByte_amp (y ∷ ys) g))

abbrev pub IsByteQuery : List (Bytes × List Bytes) → Type 0
IsByteQuery q = All (λ e. All IsByte e.0 × All (λ v. All IsByte v) e.1) q

pairs_of-PlainPair :
    (k : Bytes) (vs : List Bytes)
    → All IsByte k
    → All (λ v. All IsByte v) vs
    → All PlainPair (pairs_of k vs)
unfolding pairs_of
pairs_of-PlainPair k [] hk hv = tt
pairs_of-PlainPair k (v ∷ vs) hk hv =
    ((uri_encode-Plain k true hk, uri_encode-Plain v true hv.0), pairs_of-PlainPair k vs hk hv.1)

pub query_pairs-PlainPair :
    (q : List (Bytes × List Bytes)) (exclude : Option Bytes)
    → IsByteQuery q
    → All PlainPair (query_pairs exclude q)
unfolding query_pairs
query_pairs-PlainPair [] exclude h = tt
query_pairs-PlainPair ((k, vs) ∷ q) exclude h = elim (Bool-cases (is_excluded exclude k)) [
  | inl e ↦ rw e (query_pairs-PlainPair q exclude h.1)
  | inr e ↦ rw e (
      All-append PlainPair (pairs_of k vs) (query_pairs exclude q)
        (pairs_of-PlainPair k vs h.0.0 h.0.1) (query_pairs-PlainPair q exclude h.1))
]

pub sort-PlainPair :
    (xs : List (Bytes × Bytes)) → All PlainPair xs → All PlainPair (sort less_pair xs)
sort-PlainPair xs h = All-sort PlainPair less_pair xs h

pub join-NoByte_newline :
    (xs : List (Bytes × Bytes)) → All PlainPair xs → NoByte b'\n' (join (b'&' ∷ []) (map assign xs))
unfolding join
join-NoByte_newline [] h = tt
join-NoByte_newline ((k, v) ∷ []) h = one_line k v h.0
join-NoByte_newline ((k, v) ∷ x ∷ xs) h =
    All-append (λ c. c ≢ b'\n') (assign (k, v)) _ (one_line k v h.0)
      (omega arith, join-NoByte_newline (x ∷ xs) h.1)
