-- ===== src/Backend/Complete.antt =====
-- internal/backend/backend.go: which lists of parts CompleteMultipartUpload takes.
use mathlib.Core.Path.{subst}
use mathlib.Core.Option.{some-injective}
use pterodactyl_proxmox_back.Prelude.{
  ℤ, pos, ◌≡◌, refl, ap, ◌∙◌, ◌≢◌, ◌⊎◌, inl, inr, ◌&&◌, Option, some, List, [], ◌∷◌, Bool-cases,
  Option-cases, &&-eq-true, Bytes,
}
use pterodactyl_proxmox_back.Prelude.Steps.{continued, ◌>>=◌, ◌>>◌, return, or_clean}
use pterodactyl_proxmox_back.Prelude.Int.{◌<ℤ◌, ltb_ℤ, ltb_ℤ→lt, lt→ltb_ℤ}
use pterodactyl_proxmox_back.Store.Multipart.{MultipartUpload, PartInfo, get_upload, list_parts}
use pterodactyl_proxmox_back.S3Api.{ObjectInfo, Part, BackendError, other_failure}
use pterodactyl_proxmox_back.Strings.Equal.{eq_bytes_iff}
use pterodactyl_proxmox_back.Backend.Uploads.{
  stored_part, listed_paths, or_failure, not_empty, complete_multipart_upload,
}
use pterodactyl_proxmox_back.Strings.{eq_bytes}
use pterodactyl_proxmox_back.Prelude.Result.{Result, ok, err}
use pterodactyl_proxmox_back.Stage.{concat_parts}
use pterodactyl_proxmox_back.Backend.{Engine, State, Step, on_disk, from_db, cleanup_upload}
use pterodactyl_proxmox_back.Backend.Objects.{commit_object_locked}

-- the parts of a client are in the order of their numbers, above `prev`, and each is stored with
-- its ETag, at the path
abbrev pub Accepted : List PartInfo → ℤ → List Part → List Bytes → Type 0
Accepted stored prev [] [] = Unit
Accepted stored prev (p ∷ ps) (path ∷ paths) =
    (prev <ℤ p.part_number)
    × ((sp : PartInfo) × (stored_part p.part_number stored ≡ some sp)
        × (sp.etag ≡ p.etag)
        × (sp.temp_path ≡ path))
    × Accepted stored p.part_number ps paths
Accepted stored prev _ _ = ⊥

all_paths :
    (stored : List PartInfo) (prev : ℤ) (p : Part) (ps : List Part) (path : Bytes)
    (rest paths : List Bytes)
    → Accepted stored prev (p ∷ ps) (path ∷ rest)
    → ◌≡◌ {A = Option (List Bytes)} (some (path ∷ rest)) (some paths)
    → Accepted stored prev (p ∷ ps) paths
all_paths stored prev p ps path rest paths a h =
    subst (Accepted stored prev (p ∷ ps)) (some-injective (path ∷ rest) paths h) a

to_Accepted :
    (stored : List PartInfo) (prev : ℤ) (ps : List Part) (paths : List Bytes)
    → listed_paths stored prev ps ≡ some paths
    → Accepted stored prev ps paths
unfolding listed_paths
to_Accepted stored prev [] [] h = tt
to_Accepted stored prev [] (q ∷ paths) h = cc
to_Accepted stored prev (p ∷ ps) paths h = elim (Option-cases (stored_part p.part_number stored)) [
  | inl n ↦ cc (rw (listed_paths, n) at h)
  | inr (sp, f) ↦ elim (Bool-cases (ltb_ℤ prev p.part_number && eq_bytes sp.etag p.etag)) [
    | inr n ↦ cc (rw (listed_paths, f, n) at h)
    | inl t ↦ elim (Option-cases (listed_paths stored p.part_number ps)) [
      | inl n ↦ cc (rw (listed_paths, f, t, n) at h)
      | inr (rest, r) ↦
          let (above, same) = &&-eq-true (ltb_ℤ prev p.part_number) (eq_bytes sp.etag p.etag) t in
          all_paths stored prev p ps sp.temp_path rest paths
            (
              ltb_ℤ→lt prev p.part_number above,
              (sp, f, (eq_bytes_iff sp.etag p.etag).0 same, refl),
              to_Accepted stored p.part_number ps rest r,
            )
            (rw (listed_paths, f, t, r) at h)
    ]
  ]
]

pub from_Accepted :
    (stored : List PartInfo) (prev : ℤ) (ps : List Part) (paths : List Bytes)
    → Accepted stored prev ps paths
    → listed_paths stored prev ps ≡ some paths
unfolding listed_paths
from_Accepted stored prev [] [] h = refl
from_Accepted stored prev [] (q ∷ paths) h = elim h [ ]
from_Accepted stored prev (p ∷ ps) [] h = elim h [ ]
from_Accepted stored prev (p ∷ ps) (path ∷ paths) (lt, (sp, f, e, at), rest) =
    rw
      (
        listed_paths,
        f,
        lt→ltb_ℤ prev p.part_number lt,
        (eq_bytes_iff sp.etag p.etag).1 e,
        from_Accepted stored p.part_number ps paths rest,
        at,
      )
      refl

module _ (g : Engine) where
  step_ok :
      {A : Type 0} {r : Result BackendError A} {s t : State g} {a : A}
      → ◌≡◌ {A = Result BackendError A × State g} (r, s) (ok a, t)
      → (r ≡ ok a) × (s ≡ t)
  step_ok h = (ap (λ x. x.0) h, ap (λ x. x.1) h)

  -- the steps after the reads
  unfoldable pub checked_steps :
      MultipartUpload → List PartInfo → Bytes → List Part → Step g ObjectInfo
  checked_steps upload stored upload_id parts = do
    not_empty g parts
    paths ← or_failure g (listed_paths stored (pos 0) parts)
    r ←
        or_clean (on_disk g (concat_parts g.md5_sum g.root upload_id paths))
          (cleanup_upload g upload_id)
    info ← commit_object_locked g upload.bucket upload.key r.path r.size r.md5
    cleanup_upload g upload_id
    return info

  pub complete_checked :
      (bucket key upload_id : Bytes) (parts : List Part) (s : State g) (u : MultipartUpload)
      (stored : List PartInfo)
      → get_upload g.bolt g.upload_json upload_id s.db ≡ ok u
      → list_parts g.bolt g.part_json upload_id s.db ≡ ok stored
      → complete_multipart_upload g bucket key upload_id parts s
        ≡ checked_steps u stored upload_id parts s
  unfolding complete_multipart_upload from_db checked_steps
  complete_checked bucket key upload_id parts s u stored f l = rw (f, l) refl

  -- The parts of a completion are checked before anything is done. Either the list is empty, or
  -- out of order, or has a part that was never uploaded or another ETag than the one stored: it is
  -- refused, and nothing has changed. Or it has parts, and they are accepted. (The upload and its
  -- stored parts can be read.)
  pub complete_multipart_upload_checked :
      (bucket key upload_id : Bytes) (parts : List Part) (s : State g) (u : MultipartUpload)
      (stored : List PartInfo)
      → get_upload g.bolt g.upload_json upload_id s.db ≡ ok u
      → list_parts g.bolt g.part_json upload_id s.db ≡ ok stored
      → (((parts ≡ []) ⊎ ¬ ((paths : List Bytes) × Accepted stored (pos 0) parts paths))
          × (complete_multipart_upload g bucket key upload_id parts s ≡ (err other_failure, s)))
        ⊎ ((parts ≢ []) × ((paths : List Bytes) × Accepted stored (pos 0) parts paths))
  unfolding checked_steps
  complete_multipart_upload_checked bucket key upload_id [] s u stored f l =
      inl (inl refl, complete_checked bucket key upload_id [] s u stored f l)
  complete_multipart_upload_checked bucket key upload_id (p ∷ ps) s u stored f l =
      elim (Option-cases (listed_paths stored (pos 0) (p ∷ ps))) [
        | inl n ↦ inl (
          inr (λ (paths, a). cc (n, from_Accepted stored (pos 0) (p ∷ ps) paths a)),
          complete_checked bucket key upload_id (p ∷ ps) s u stored f l
              ∙ ap
                  (λ o. continued {B = ObjectInfo} (or_failure g o s) (λ paths.
                    or_clean (on_disk g (concat_parts g.md5_sum g.root upload_id paths))
                      (cleanup_upload g upload_id)
                    >>= λ r. commit_object_locked g u.bucket u.key r.path r.size r.md5 >>= λ info.
                        cleanup_upload g upload_id >> return info))
                  n,
        )
        | inr (paths, a) ↦ inr ((λ e. cc e), (paths, to_Accepted stored (pos 0) (p ∷ ps) paths a))
      ]
