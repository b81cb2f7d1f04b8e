-- ===== src/Backend/Assembled.antt =====
-- internal/backend/backend.go: the object that CompleteMultipartUpload makes of the parts.
use pterodactyl_proxmox_back.Prelude.{
  pos, ℕ, ◌≡◌, sym, ap, ◌∙◌, ◌&&◌, none, List, [], ◌∷◌, if◌then◌else◌, Bytes, length,
}
use pterodactyl_proxmox_back.Prelude.Steps.{◌>>=◌, ◌>>◌, return, or_clean, bind_ok, or_clean_ok}
use pterodactyl_proxmox_back.Prelude.Result.{ok, ok_injective}
use pterodactyl_proxmox_back.Store.Objects.Laws.{get_object_mapping-lookup}
use pterodactyl_proxmox_back.Store.Multipart.{MultipartUpload, PartInfo, get_upload, list_parts}
use pterodactyl_proxmox_back.Store.Multipart.Cascade.{delete_upload-objects}
use pterodactyl_proxmox_back.Disk.{file}
use pterodactyl_proxmox_back.Stage.{
  WriteResult, final_path, partial_path, write_result, concat_parts,
}
use pterodactyl_proxmox_back.Stage.Copy.{Contents, Apart, AllApart, concat}
use pterodactyl_proxmox_back.Stage.Concat.{concat_parts-concat}
use pterodactyl_proxmox_back.S3Api.{ObjectInfo, Part}
use pterodactyl_proxmox_back.Strings.Hex.{hex}
use pterodactyl_proxmox_back.Strings.Split.{NoByte}
use pterodactyl_proxmox_back.Backend.{Engine, State, on_disk, on_db, cleanup_upload}
use pterodactyl_proxmox_back.Backend.Objects.{new_mapping, commit_object_locked}
use pterodactyl_proxmox_back.Backend.Uploads.{
  listed_paths, or_failure, not_empty, complete_multipart_upload,
}
use pterodactyl_proxmox_back.Backend.Commit.{mapping_at, Storable}
use pterodactyl_proxmox_back.Backend.Found.{Committed, commit_object_locked-Committed}
use pterodactyl_proxmox_back.Backend.Put.{on_disk_ok}
use pterodactyl_proxmox_back.Backend.Complete.{
  Accepted, from_Accepted, checked_steps, complete_checked,
}
use pterodactyl_proxmox_back.Store.Objects.{get_object_mapping}
use pterodactyl_proxmox_back.Strings.{eq_bytes}
use pterodactyl_proxmox_back.Bolt.Lists.{lookup}
use pterodactyl_proxmox_back.Store.Keys.{object_map_key}

module _ (g : Engine) where
  -- a cleanup does not touch the mappings
  pub mapping_at-cleanup_upload :
      (upload_id c j : Bytes) (s : State g)
      → mapping_at g c j ((cleanup_upload g upload_id s).1) ≡ mapping_at g c j s
  unfolding cleanup_upload on_disk on_db
  mapping_at-cleanup_upload upload_id c j s =
      get_object_mapping-lookup g.bolt g.object_json c j ((cleanup_upload g upload_id s).1).db s.db
        (ap (λ o. lookup (object_map_key c j) (g.bolt.pairs o))
          (delete_upload-objects g.bolt upload_id s.db))

  -- what is answered and found after the parts `cs` were put together
  abbrev Assembled : MultipartUpload → List Bytes → ObjectInfo → State g → State g → Type 0
  Assembled u cs info s t =
      Committed g u.bucket u.key (pos (length (concat cs))) (hex (g.md5_sum (concat cs))) info s t

  -- the end of a completion
  committed_after :
      (upload_id : Bytes) (u : MultipartUpload) (cs : List Bytes) (r : WriteResult)
      (s s3 t : State g) (info : ObjectInfo)
      → ((used updated : ℕ)
          → Storable g (
              new_mapping g u.bucket u.key
                (pos (length (concat cs)))
                (hex (g.md5_sum (concat cs)))
                used
                updated))
      → NoByte 0 u.bucket
      → s3.db ≡ s.db
      → r ≡ write_result g.md5_sum (final_path g.root upload_id) (concat cs)
      → (commit_object_locked g u.bucket u.key r.path r.size r.md5 >>= λ info.
            cleanup_upload g upload_id >> return info)
          s3
        ≡ (ok info, t)
      → Assembled u cs info s t
  committed_after upload_id u cs r s s3 t info json hb same_db result h =
      let (info1, s4, h4, k4) =
        bind_ok (commit_object_locked g u.bucket u.key r.path r.size r.md5)
          (λ info. cleanup_upload g upload_id >> return info) s3 h in
      let (w, s5, h5, k5) = bind_ok (cleanup_upload g upload_id) (λ _. return info1) s4 k4 in
      let size : r.size ≡ pos (length (concat cs)) = ap (λ x. WriteResult.size x) result in
      let sum : r.md5 ≡ hex (g.md5_sum (concat cs)) = ap (λ x. WriteResult.md5 x) result in
      let (used, updated, answer, at_keys) =
        commit_object_locked-Committed g u.bucket u.key r.path (hex (g.md5_sum (concat cs)))
          (pos (length (concat cs))) s3 {info = info1} {t = s4} json hb (rw (size, sum) at h4) in
      (
        used,
        updated,
        sym (ok_injective (ap (λ r. r.0) k5)) ∙ answer,
        λ c j hc.
            ap (λ r. mapping_at g c j r.1) (sym k5)
            ∙ ap (λ r. mapping_at g c j r.1) (sym h5)
            ∙ mapping_at-cleanup_upload upload_id c j s4
            ∙ at_keys c j hc
            ∙ ap
                (λ d.
                  if eq_bytes u.bucket c && eq_bytes u.key j
                  then ok (
                      new_mapping g u.bucket u.key (pos (length (concat cs)))
                        (hex (g.md5_sum (concat cs))) used updated)
                  else get_object_mapping g.bolt g.object_json c j d)
                same_db,
      )

  -- A completion that succeeds has made of the upload's parts, one after the other in the order
  -- listed, the object at the bucket and key that the upload was begun for: the answer and the
  -- mapping there have its length and its MD5 sum, and other keys are as before. (The upload and
  -- its stored parts can be read; the parts listed are accepted and are in their files, which are
  -- different ones; no earlier call has left a final file; JSON gives the new mapping back as it
  -- was if it can write it; and no bucket name has a NUL byte.)
  pub complete_multipart_upload-Committed :
      (bucket key upload_id : Bytes) (parts : List Part) (s : State g) (u : MultipartUpload)
      (stored : List PartInfo) (paths cs : List Bytes) {info : ObjectInfo} {t : State g}
      → get_upload g.bolt g.upload_json upload_id s.db ≡ ok u
      → list_parts g.bolt g.part_json upload_id s.db ≡ ok stored
      → Accepted stored (pos 0) parts paths
      → file (final_path g.root upload_id) s.world.0 ≡ none
      → Apart (partial_path g.root upload_id) paths
      → AllApart paths
      → Contents s.world.0 paths cs
      → ((used updated : ℕ)
          → Storable g (
              new_mapping g u.bucket u.key
                (pos (length (concat cs)))
                (hex (g.md5_sum (concat cs)))
                used
                updated))
      → NoByte 0 u.bucket
      → complete_multipart_upload g bucket key upload_id parts s ≡ (ok info, t)
      → Committed g u.bucket u.key (pos (length (concat cs))) (hex (g.md5_sum (concat cs))) info s t
  unfolding checked_steps
  complete_multipart_upload-Committed bucket key upload_id parts s u stored paths cs {info = info}
        {t = t} f l a fin ap1 ap2 cont json hb h =
      let joined = concat_parts g.md5_sum g.root upload_id paths in
      let run = sym (complete_checked g bucket key upload_id parts s u stored f l) ∙ h in
      let (u1, s1, h1, k1) =
        bind_ok (not_empty g parts)
          (λ _. or_failure g (listed_paths stored (pos 0) parts) >>= λ paths.
            or_clean (on_disk g (concat_parts g.md5_sum g.root upload_id paths))
              (cleanup_upload g upload_id)
            >>= λ r. commit_object_locked g u.bucket u.key r.path r.size r.md5 >>= λ info.
                cleanup_upload g upload_id >> return info)
          s run in
      let same1 : s1 ≡ s = not_empty_same parts s h1 in
      let k2 = rw (from_Accepted stored (pos 0) parts paths a, same1) at k1 in
      let (r, s3, h3, k3) =
        bind_ok (or_clean (on_disk g joined) (cleanup_upload g upload_id))
          (λ r. commit_object_locked g u.bucket u.key r.path r.size r.md5 >>= λ info.
            cleanup_upload g upload_id >> return info)
          s k2 in
      let (on_its_disk, same_db) =
        on_disk_ok g joined s (or_clean_ok (on_disk g joined) (cleanup_upload g upload_id) s h3) in
      let result =
        (concat_parts-concat g.md5_sum g.root upload_id paths cs s.world.0 fin ap1 ap2 cont
          on_its_disk).0 in
      committed_after upload_id u cs r s s3 t info json hb same_db result k3
    where
      not_empty_same :
          (parts : List Part) (s : State g) {v : Unit {0}} {s1 : State g}
          → not_empty g parts s ≡ (ok v, s1)
          → s1 ≡ s
      not_empty_same [] s h = cc (ap (λ r. r.0) h)
      not_empty_same (p ∷ ps) s h = sym (ap (λ r. r.1) h)
