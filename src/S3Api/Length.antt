-- ===== src/S3Api/Length.antt =====
-- internal/s3api/get_object.go: the length that a GET announces is that of its body.
use mathlib.Core.Path.{subst}
use pterodactyl_proxmox_back.Prelude.{
  pos, ℕ, suc, ◌≡◌, refl, ap, inl, inr, Option, none, some, List, [], ◌∷◌, if◌then◌else◌,
  Option-cases, Bytes, codes, length,
}
use pterodactyl_proxmox_back.Prelude.Int.{◌+ℤ◌, ◌-ℤ◌}
use pterodactyl_proxmox_back.Prelude.Result.{Result, ok, err}
use pterodactyl_proxmox_back.S3Api.{
  ObjectInfo, RangeSpec, BackendError, err_not_found, other_failure, Backend, Body, content_body,
  Response, Context, write_error_code, write_internal_error,
}
use pterodactyl_proxmox_back.S3Api.Objects.{
  no_such_key, range_spec, content_response, get_answer, get_ranged, handle_get_object,
}
use pterodactyl_proxmox_back.Strings.{eq_bytes}
use pterodactyl_proxmox_back.Strings.Decimal.{itoa}
use pterodactyl_proxmox_back.S3Api.Range.{parse_range, Within, parse_range-Within}

-- a field that a response has set
abbrev pub field : Bytes → List (Bytes × Bytes) → Option Bytes
field name [] = none
field name ((n, v) ∷ h) = if eq_bytes n name then some v else field name h

-- the bytes of a body
abbrev pub content_of : Body → Option Bytes
content_of (content_body s) = some s
content_of _ = none

module _ (b : Backend) where
  -- What the interface says of GetObject: the bytes are those of the object, or of a range of it.
  abbrev pub Slices : Bytes → Bytes → ObjectInfo → b.State → Type 0
  Slices bucket key info s =
      ((content : Bytes) (i : ObjectInfo) (t : b.State)
        → b.get_object bucket key none s ≡ (ok (content, i), t)
        → pos (length content) ≡ info.size)
      × ((r : RangeSpec) (content : Bytes) (i : ObjectInfo) (t : b.State)
          → Within info.size (r.start, r.end_)
          → b.get_object bucket key (some r) s ≡ (ok (content, i), t)
          → pos (length content) ≡ (r.end_ -ℤ r.start +ℤ pos 1))

  -- a range, where there is one, lies in the object
  Fits : ObjectInfo → Option RangeSpec → Type 0
  Fits info none = Unit
  Fits info (some r) = Within info.size (r.start, r.end_)

  -- the length is announced of the content that is sent
  unfoldable pub Announces : Response → Type 0
  Announces r =
      (content : Bytes)
      → content_of r.body ≡ some content
      → field (codes "Content-Length") r.fields ≡ some (itoa (pos (length content)))

  whole-Announces :
      (info : ObjectInfo) (content : Bytes)
      → pos (length content) ≡ info.size
      → Announces (content_response b none info content)
  unfolding Announces eq_bytes
  whole-Announces info content e c h = cc

  range-Announces :
      (r : RangeSpec) (info : ObjectInfo) (content : Bytes)
      → pos (length content) ≡ (r.end_ -ℤ r.start +ℤ pos 1)
      → Announces (content_response b (some r) info content)
  unfolding Announces eq_bytes
  range-Announces r info content e c h = cc

  -- an error has no content
  no_such_key-Announces : (ctx : Context) (e : BackendError) → Announces (no_such_key b ctx e)
  unfolding Announces write_error_code write_internal_error
  no_such_key-Announces ctx err_not_found c h = cc
  no_such_key-Announces ctx other_failure c h = cc

  given_or : RangeSpec → Option (Option RangeSpec) → RangeSpec
  given_or d none = d
  given_or d (some none) = d
  given_or d (some (some r)) = r

  range_spec-Fits :
      (range_header : Bytes) (info : ObjectInfo) (n : ℕ)
      → info.size ≡ pos (suc n)
      → (spec : Option RangeSpec) → range_spec b range_header info.size ≡ some spec
      → Fits info spec
  unfolding Fits given_or
  range_spec-Fits range_header info n z none e = tt
  range_spec-Fits [] info n z (some r) e = cc
  range_spec-Fits (c ∷ s) info n z (some r) e =
      elim (Option-cases (parse_range (c ∷ s) info.size)) [
        | inl q ↦ cc (rw (range_spec, q) at e)
        | inr (p, q) ↦ rw z (
            subst (λ x. Within (pos (suc n)) (x.start, x.end_))
              (ap (given_or r) (rw (range_spec, q) at e))
              (parse_range-Within (c ∷ s) n {r = p} (rw z at q)))
      ]

  get_answer-Announces :
      (ctx : Context) (bucket key : Bytes) (spec : Option RangeSpec) (info : ObjectInfo)
      (s : b.State) (a : Result BackendError (Bytes × ObjectInfo) × b.State)
      → Slices bucket key info s
      → Fits info spec
      → b.get_object bucket key spec s ≡ a
      → Announces ((get_answer b ctx spec info a).0)
  unfolding Fits
  get_answer-Announces ctx bucket key none info s (ok (content, i), t) f w e =
      whole-Announces info content (f.0 content i t e)
  get_answer-Announces ctx bucket key (some r) info s (ok (content, i), t) f w e =
      range-Announces r info content (f.1 r content i t w e)
  get_answer-Announces ctx bucket key spec info s (err x, t) f w e = no_such_key-Announces ctx x

  get_ranged-Announces :
      (ctx : Context) (bucket key range_header : Bytes) (info : ObjectInfo) (n : ℕ) (s : b.State)
      → Slices bucket key info s
      → info.size ≡ pos (suc n)
      → (o : Option (Option RangeSpec)) → range_spec b range_header info.size ≡ o
      → Announces ((get_ranged b ctx bucket key info o s).0)
  unfolding Announces write_error_code
  get_ranged-Announces ctx bucket key range_header info n s f z none e = λ c h. cc
  get_ranged-Announces ctx bucket key range_header info n s f z (some spec) e =
      get_answer-Announces ctx bucket key spec info s (b.get_object bucket key spec s) f
        (range_spec-Fits range_header info n z spec e) refl

  -- Whatever a GET of an object that is not empty answers, the length that it announces is that of
  -- the content it sends, if the backend sends the object in the size that it names, or the part
  -- of it that it is asked for.
  pub handle_get_object-Announces :
      (ctx : Context) (range_header bucket key : Bytes) (info : ObjectInfo) (n : ℕ) (s t : b.State)
      → b.head_object bucket key s ≡ (ok info, t)
      → info.size ≡ pos (suc n)
      → Slices bucket key info t
      → Announces ((handle_get_object b ctx range_header bucket key s).0)
  unfolding handle_get_object
  handle_get_object-Announces ctx range_header bucket key info n s t h z f = rw h (
      get_ranged-Announces ctx bucket key range_header info n t f z
        (range_spec b range_header info.size) refl)
