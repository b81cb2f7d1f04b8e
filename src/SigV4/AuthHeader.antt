-- ===== src/SigV4/AuthHeader.antt =====
-- internal/sigv4/verify.go: parseAuthorizationHeader.
use pterodactyl_proxmox_back.Prelude.{
  ℕ, ◌≡◌, refl, Bool, true, false, not, ◌||◌, Option, none, some, List, [], ◌∷◌, ◌==◌,
  if◌then◌else◌, Bytes, codes, length, drop, all,
}
use pterodactyl_proxmox_back.Strings.{eq_bytes, has_prefix, cut, split}
use pterodactyl_proxmox_back.Http.{trim_space}
use pterodactyl_proxmox_back.SigV4.Canonical.{algorithm}

pub record ParsedAuth : Type 0 where
  pub credential : Bytes
  pub signed_headers : Bytes
  pub signature : Bytes

-- \s of the regular expression
is_re_space : ℕ → Bool
is_re_space c = c == b' ' || c == b'\t' || c == b'\n' || c == 12 || c == b'\r'

-- `\s+(.+)$` behind one white space `c`: the group, with the last white space given back to it
-- if nothing else is left
auth_group : ℕ → Bytes → Option Bytes
auth_group c [] = none
auth_group c (d ∷ s) = elim (is_re_space d) [
  | true ↦ elim s [ [] ↦ if d == b'\n' then none else some (d ∷ []) | _ ↦ auth_group d s ]
  | false ↦ if all (λ x. not (x == b'\n')) (d ∷ s) then some (d ∷ s) else none
]

-- authHeaderRe.FindStringSubmatch
unfoldable pub match_auth : Bytes → Option Bytes
unfolding auth_group is_re_space
match_auth h =
    if has_prefix h algorithm
    then elim (drop (length algorithm) h) [
      | [] ↦ none
      | c ∷ s ↦ if is_re_space c then auth_group c s else none
    ]
    else none

set_field : ParsedAuth → Bytes → Bytes → ParsedAuth
set_field out k v =
    if eq_bytes k (codes "Credential")
    then record out { credential = v }
    else if eq_bytes k (codes "SignedHeaders")
    then record out { signed_headers = v }
    else if eq_bytes k (codes "Signature")
    then record out { signature = v }
    else out

-- one round of the loop over the fields
unfoldable pub read_field : ParsedAuth → Bytes → ParsedAuth
unfolding set_field
read_field out field = elim (cut b'=' (trim_space field)) [
  | none ↦ out
  | some (k, v) ↦ set_field out k v
]

unfoldable pub read_fields : ParsedAuth → List Bytes → ParsedAuth
unfolding read_field
read_fields out [] = out
read_fields out (f ∷ fs) = read_fields (read_field out f) fs

abbrev no_fields : ParsedAuth
no_fields = record { credential = []; signed_headers = []; signature = [] }

unfoldable pub is_empty : Bytes → Bool
is_empty [] = true
is_empty (c ∷ s) = false

abbrev complete : ParsedAuth → Option ParsedAuth
complete out =
    if is_empty out.credential || is_empty out.signed_headers || is_empty out.signature
    then none
    else some out

-- both errors are `none`
unfoldable pub parse_authorization_header : Bytes → Option ParsedAuth
unfolding match_auth read_fields is_empty
parse_authorization_header h = elim (match_auth h) [
  | none ↦ none
  | some m ↦ complete (read_fields no_fields (split b',' m))
]

example_header :
    parse_authorization_header (
      codes
        "AWS4-HMAC-SHA256 Credential=AK/20130524/us-east-1/s3/aws4_request, SignedHeaders=host;x-amz-date,Signature=fe5f")
    ≡ some (record {
      credential = codes "AK/20130524/us-east-1/s3/aws4_request";
      signed_headers = codes "host;x-amz-date";
      signature = codes "fe5f";
    })
unfolding parse_authorization_header has_prefix split cut trim_space eq_bytes
example_header = refl
