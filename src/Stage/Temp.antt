-- ===== src/Stage/Temp.antt =====
-- internal/stage/staging.go: WriteToTemp and WritePart keep the whole body in the file they name.
use mathlib.Core.Path.{subst}
use pterodactyl_proxmox_back.Prelude.{
  ℤ, ◌≡◌, refl, sym, ap, ◌∙◌, inl, inr, Bool, true, false, Option, none, some, List, [], ◌∷◌, ◌++◌,
  arith, Option-cases, Bytes,
}
use pterodactyl_proxmox_back.Prelude.Steps.{◌>>=◌, ◌>>◌, return, or_clean, bind_ok, or_clean_ok}
use pterodactyl_proxmox_back.Prelude.Result.{ok, ok_injective}
use pterodactyl_proxmox_back.Disk.{
  Disk, called, file, join_path, mkdir_all, create, content_of, append, remove, pick, temp_path,
  picked, create_temp,
}
use pterodactyl_proxmox_back.Disk.Laws.{call_ok, file-with_file, create_ok, append_ok, mkdir_all_ok}
use pterodactyl_proxmox_back.Stage.{
  WriteResult, upload_dir, part_path, write_result, copy_body, write_to_temp, write_part,
  read_to_end,
}
use pterodactyl_proxmox_back.S3Api.{Stream}
use pterodactyl_proxmox_back.Bolt.Lists.{lookup}
use pterodactyl_proxmox_back.Strings.Equal.{eq_bytes_refl}

pub create_temp_ok :
    (dir name_pattern : Bytes) (d : Disk) {p : Bytes} {e : Disk}
    → create_temp dir name_pattern d ≡ (ok p, e)
    → (file p d ≡ none) × (file p e ≡ some [])
unfolding create_temp pick
create_temp_ok dir name_pattern d h =
    picked_ok (pick (temp_path dir name_pattern) d.files d.drawn) (called d)
      (λ q names f. pick_free (temp_path dir name_pattern) d.files d.drawn q names f)
      (call_ok (λ x. picked (pick (temp_path dir name_pattern) x.files x.drawn) x) d h)
  where
    pick_free :
        (path_of : Bytes → Bytes) (files : List (Bytes × Bytes)) (names : List Bytes) (q : Bytes)
        (rest : List Bytes)
        → pick path_of files names ≡ some (q, rest)
        → lookup q files ≡ none
    pick_free path_of files [] q rest f = cc
    pick_free path_of files (name ∷ names) q rest f =
        elim (Option-cases (lookup (path_of name) files)) [
          | inl n ↦ ground (arith, rw (n, pick) at f, n)
          | inr (c, s) ↦ pick_free path_of files names q rest (rw (s, pick) at f)
        ]

    picked_ok :
        (o : Option (Bytes × List Bytes)) (d : Disk) {p : Bytes} {e : Disk}
        → ((q : Bytes) (names : List Bytes) → o ≡ some (q, names) → file q d ≡ none)
        → picked o d ≡ (ok p, e)
        → (file p d ≡ none) × (file p e ≡ some [])
    picked_ok none d f h = cc (ap (λ r. r.0) h)
    picked_ok (some (q, names)) d {e = e} f h =
        let same = ok_injective (ap (λ r. r.0) h) in
        (
          subst (λ x. file x d ≡ none) same (f q names refl),
          subst (λ x. file x e ≡ some []) same
              (ap (file q) (sym (ap (λ r. r.1) h))
                ∙ file-with_file q q [] (record d { drawn = names })
                ∙ rw (eq_bytes_refl q) refl),
        )

module _ (md5_sum : Bytes → Bytes) where
  pub copy_body_ok :
      (path : Bytes) (body : Stream) (d : Disk) {r : WriteResult} {e : Disk}
      → file path d ≡ some []
      → copy_body md5_sum path body d ≡ (ok r, e)
      → (r ≡ write_result md5_sum path body.content)
        × (body.is_broken ≡ false)
        × (file path e ≡ some body.content)
  unfolding copy_body
  copy_body_ok path body d f h =
      let (u, d1, h1, k1) =
        bind_ok (append path body.content)
          (λ _. read_to_end body.is_broken >> return (write_result md5_sum path body.content)) d
          h in
      let (u2, d2, h2, k2) =
        bind_ok (read_to_end body.is_broken) (λ _. return (write_result md5_sum path body.content))
          d1 k1 in
      let (whole, same) = read_to_end_ok body.is_broken d1 h2 in
      (
        sym (ok_injective (ap (λ r. r.0) k2)),
        whole,
        ap (file path) (sym (ap (λ r. r.1) k2) ∙ same ∙ append_ok path body.content d h1)
            ∙ file-with_file path path (content_of (file path d) ++ body.content) (called d)
            ∙ rw (eq_bytes_refl path, f) refl,
      )
    where
      read_to_end_ok :
          (b : Bool) (d : Disk) {u : Unit {0}} {e : Disk}
          → read_to_end b d ≡ (ok u, e)
          → (b ≡ false) × (e ≡ d)
      read_to_end_ok true d h = cc (ap (λ r. r.0) h)
      read_to_end_ok false d h = (refl, sym (ap (λ r. r.1) h))

  -- A body that WriteToTemp has written is whole, it is in the file of the result, at a path that
  -- was free, and the result has its length and its sum.
  pub write_to_temp_ok :
      (root dir name_pattern : Bytes) (body : Stream) (d : Disk) {r : WriteResult} {e : Disk}
      → write_to_temp md5_sum root dir name_pattern body d ≡ (ok r, e)
      → (r ≡ write_result md5_sum r.path body.content)
        × (body.is_broken ≡ false)
        × (file r.path d ≡ none)
        × (file r.path e ≡ some body.content)
  unfolding write_to_temp
  write_to_temp_ok root dir name_pattern body d {r = r} {e = e} h =
      let full_dir = join_path root dir in
      let (u, d1, h1, k1) =
        bind_ok (mkdir_all full_dir)
          (λ _. create_temp full_dir name_pattern >>= λ p.
            or_clean (copy_body md5_sum p body) (remove p))
          d h in
      let (p, d2, h2, k2) =
        bind_ok (create_temp full_dir name_pattern)
          (λ p. or_clean (copy_body md5_sum p body) (remove p)) d1 k1 in
      let (was_free, empty) = create_temp_ok full_dir name_pattern d1 h2 in
      let (same, whole, there) =
        copy_body_ok p body d2 empty (or_clean_ok (copy_body md5_sum p body) (remove p) d2 k2) in
      let at_path : r.path ≡ p = ap (λ x. WriteResult.path x) same in
      (
        same ∙ ap (λ x. write_result md5_sum x body.content) (sym at_path),
        whole,
        ap (λ x. file x d) at_path ∙ ap (lookup p) (sym (mkdir_all_ok full_dir d h1)) ∙ was_free,
        ap (λ x. file x e) at_path ∙ there,
      )

  -- A part that WritePart has written is whole and in the file of its number, whatever was there
  -- before, and the result has its length and its sum.
  pub write_part_ok :
      (root upload_id : Bytes) (n : ℤ) (body : Stream) (d : Disk) {r : WriteResult} {e : Disk}
      → write_part md5_sum root upload_id n body d ≡ (ok r, e)
      → (r ≡ write_result md5_sum (part_path root upload_id n) body.content)
        × (body.is_broken ≡ false)
        × (file (part_path root upload_id n) e ≡ some body.content)
  unfolding write_part
  write_part_ok root upload_id n body d h =
      let path = part_path root upload_id n in
      let (u, d1, h1, k1) =
        bind_ok (mkdir_all (upload_dir root upload_id))
          (λ _. create path >> or_clean (copy_body md5_sum path body) (remove path)) d h in
      let (u2, d2, h2, k2) =
        bind_ok (create path) (λ _. or_clean (copy_body md5_sum path body) (remove path)) d1 k1 in
      copy_body_ok path body d2
        (ap (file path) (create_ok path d1 h2)
          ∙ file-with_file path path [] (called d1)
          ∙ rw (eq_bytes_refl path) refl)
        (or_clean_ok (copy_body md5_sum path body) (remove path) d2 k2)
