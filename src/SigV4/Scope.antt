-- ===== src/SigV4/Scope.antt =====
-- internal/sigv4/canonical.go: credentials and their scope.
use pterodactyl_proxmox_back.Prelude.{
  ◌≡◌, refl, sym, ap, ◌∙◌, ◌↔◌, Option, none, some, List, [], ◌∷◌, ◌++◌, arith, if◌then◌else◌,
  Bytes, codes,
}
use pterodactyl_proxmox_back.Strings.{eq_bytes, split, join}
use pterodactyl_proxmox_back.Strings.Split.{
  NoByte, split-NoByte, split-append, split-join, join-split,
}
use pterodactyl_proxmox_back.Strings.Equal.{eq_bytes_iff, eq_bytes_refl}

abbrev pub termination : Bytes
termination = codes "aws4_request"

pub record Credentials : Type 0 where
  pub access_key : Bytes
  pub secret_key : Bytes

-- credentialScope
pub record Scope : Type 0 where
  pub access_key : Bytes
  pub date : Bytes
  pub region : Bytes
  pub service : Bytes

-- the five parts of the split
scope_of_parts : List Bytes → Option Scope
scope_of_parts (a ∷ d ∷ r ∷ s ∷ t ∷ []) =
    if eq_bytes t termination
    then some (record { access_key = a; date = d; region = r; service = s })
    else none
scope_of_parts _ = none

-- both errors are `none`: the callers make one code of them
unfoldable pub parse_credential : Bytes → Option Scope
unfolding scope_of_parts
parse_credential cred = scope_of_parts (split b'/' cred)

unfoldable pub scope_string : Scope → Bytes
scope_string c = join (b'/' ∷ []) (c.date ∷ c.region ∷ c.service ∷ termination ∷ [])

abbrev pub NoSlash : Scope → Type 0
NoSlash c =
    NoByte b'/' c.access_key × NoByte b'/' c.date × NoByte b'/' c.region × NoByte b'/' c.service

credential_split :
    (c : Scope)
    → NoSlash c
    → split b'/' (c.access_key ++ (b'/' ∷ scope_string c))
      ≡ c.access_key ∷ c.date ∷ c.region ∷ c.service ∷ termination ∷ []
unfolding scope_string join
credential_split c h =
    split-append b'/' c.access_key _ h.0
    ∙ ap (◌∷◌ c.access_key) (
        split-join b'/' c.date (c.region ∷ c.service ∷ termination ∷ [])
          (h.1, (h.2, (h.3, (grind arith, tt)))))

parts-scope :
    (ps : List Bytes) {c : Scope}
    → scope_of_parts ps ≡ some c
    → ps ≡ c.access_key ∷ c.date ∷ c.region ∷ c.service ∷ termination ∷ []
unfolding scope_of_parts
parts-scope [] h = cc
parts-scope (a ∷ []) h = cc
parts-scope (a ∷ d ∷ []) h = cc
parts-scope (a ∷ d ∷ r ∷ []) h = cc
parts-scope (a ∷ d ∷ r ∷ s ∷ []) h = cc
parts-scope (a ∷ d ∷ r ∷ s ∷ t ∷ []) h = ground (arith, eq_bytes_iff t termination)
parts-scope (a ∷ d ∷ r ∷ s ∷ t ∷ u ∷ ps) h = cc

credential_read :
    (cred : Bytes) (c : Scope)
    → split b'/' cred ≡ c.access_key ∷ c.date ∷ c.region ∷ c.service ∷ termination ∷ []
    → (cred ≡ c.access_key ++ (b'/' ∷ scope_string c)) × NoSlash c
unfolding scope_string
credential_read cred c e =
    let h = rw e at (split-NoByte b'/' cred) in
    (
      sym (join-split b'/' cred) ∙ ap (join (b'/' ∷ [])) e ∙ unfold join in refl,
      (h.0, h.1.0, h.1.1.0, h.1.1.1.0),
    )

-- A credential is read exactly as its four parts and the termination string, joined by slashes:
-- what is written from a scope without slashes is read back, and what is read was written from
-- the scope that was read, whose parts hold no slash.
pub parse_credential_iff :
    (cred : Bytes) (c : Scope)
    → (parse_credential cred ≡ some c)
      ↔ ((cred ≡ c.access_key ++ (b'/' ∷ scope_string c)) × NoSlash c)
unfolding parse_credential
parse_credential_iff cred c = (
  λ h. credential_read cred c (parts-scope (split b'/' cred) h),
  λ (e, h). rw (e, credential_split c h) (unfold scope_of_parts in rw (eq_bytes_refl termination)),
)
