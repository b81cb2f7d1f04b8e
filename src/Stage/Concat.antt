-- ===== src/Stage/Concat.antt =====
-- internal/stage/staging.go: ConcatParts makes one file of the parts, and a call that is repeated
-- gives the file that is there.
use pterodactyl_proxmox_back.Prelude.Steps.{
  ◌>>=◌, ◌>>◌, optional, return, attempt, bind_ok, bind_run,
}
use pterodactyl_proxmox_back.Disk.{
  Disk, next_fault, called, checked, file, without_file, mkdir_all, create, open_file, size_of,
  stat, close, rename,
}
use pterodactyl_proxmox_back.Disk.Laws.{
  call-files, file-with_file, create_ok, close_ok, mkdir_all_ok, rename_ok,
}
use pterodactyl_proxmox_back.Stage.{
  WriteResult, upload_dir, final_path, partial_path, copy_parts, write_result, hash_existing_file,
  concat_new, concat_parts, concat_unless,
}
use pterodactyl_proxmox_back.Stage.Copy.{
  Contents, Apart, AllApart, concat, Contents-same, copy_parts_ok, everywhere, kept-create,
}
use pterodactyl_proxmox_back.Prelude.Result.{ok, ok_injective}
use pterodactyl_proxmox_back.Strings.Equal.{eq_bytes_refl}
use pterodactyl_proxmox_back.Bolt.Lists.{lookup}
use pterodactyl_proxmox_back.Prelude.{
  pos, ℕ, ◌≡◌, refl, sym, ap, ◌∙◌, Option, none, some, List, [], Bytes, length,
}
use pterodactyl_proxmox_back.Disk.Run.{
  NoFaults, called-NoFaults, stat_run, open_file_run, made, mkdir_all_run,
}

module _ (md5_sum : Bytes → Bytes) where
  concat_new_ok :
      (partial final : Bytes) (paths cs : List Bytes) (d : Disk) {r : WriteResult} {e : Disk}
      → Apart partial paths
      → AllApart paths
      → Contents d paths cs
      → concat_new md5_sum partial final paths d ≡ (ok r, e)
      → (r ≡ write_result md5_sum final (concat cs)) × (file final e ≡ some (concat cs))
  unfolding concat_new
  concat_new_ok partial final paths cs d a b g h =
      let (u1, d1, h1, k1) =
        bind_ok (create partial)
          (λ _. copy_parts partial [] paths >>= λ c.
            close >> (rename partial final >> return (write_result md5_sum final c)))
          d h in
      let (c, d2, h2, k2) =
        bind_ok (copy_parts partial [] paths)
          (λ c. close >> (rename partial final >> return (write_result md5_sum final c))) d1 k1 in
      let (u3, d3, h3, k3) =
        bind_ok close (λ _. rename partial final >> return (write_result md5_sum final c)) d2 k2 in
      let (u4, d4, h4, k4) =
        bind_ok (rename partial final) (λ _. return (write_result md5_sum final c)) d3 k3 in
      let made = create_ok partial d h1 in
      let copied =
        copy_parts_ok partial [] paths cs d1 a b
          (ap (file partial) made
            ∙ file-with_file partial partial [] (called d)
            ∙ rw (eq_bytes_refl partial) refl)
          (Contents-same d d1 paths cs (kept-create partial d d1 paths a made) g) h2 in
      let moved = rename_ok partial final d3 h4 (ap (file partial) (close_ok d2 h3) ∙ copied.1) in
      (
        sym (ok_injective (ap (λ r. r.0) k4)) ∙ ap (write_result md5_sum final) copied.0,
        ap (file final) (sym (ap (λ r. r.1) k4))
            ∙ ap (file final) moved
            ∙ file-with_file final final (concat cs) (without_file partial (called d3))
            ∙ rw (eq_bytes_refl final) refl,
      )

  -- what os.Stat tells of a file that is not there, whether it fails or not
  stat-absent : (p : Bytes) (d : Disk) → file p d ≡ none → optional ((stat p d).0) ≡ none
  unfolding stat
  stat-absent p d h = of_fault p (next_fault d.faults) (called d) h
    where
      of_fault :
          (p : Bytes) (f : Option ℕ) (d : Disk)
          → file p d ≡ none
          → optional ((checked f (λ x. size_of (file p x) x) d).0) ≡ none
      of_fault p none d h = rw h refl
      of_fault p (some n) d h = refl

  stat-files : (p : Bytes) (d : Disk) → ((stat p d).1).files ≡ d.files
  unfolding stat
  stat-files p d =
      call-files (λ e. e.files ≡ d.files) (λ x. size_of (file p x) x) d refl
        (of_option (file p d) (called d))
    where
      of_option : (o : Option Bytes) (d : Disk) → ((size_of o d).1).files ≡ d.files
      of_option none d = refl
      of_option (some c) d = refl

  -- When ConcatParts succeeds, whichever calls have failed without it, the final file holds the
  -- texts of the parts in their order, and the result has its path, its length and its sum. (There
  -- was no final file, the parts are at different paths, and none is at that of the partial file.)
  pub concat_parts-concat :
      (root upload_id : Bytes) (paths cs : List Bytes) (d : Disk) {r : WriteResult} {e : Disk}
      → file (final_path root upload_id) d ≡ none
      → Apart (partial_path root upload_id) paths
      → AllApart paths
      → Contents d paths cs
      → concat_parts md5_sum root upload_id paths d ≡ (ok r, e)
      → (r ≡ write_result md5_sum (final_path root upload_id) (concat cs))
        × (file (final_path root upload_id) e ≡ some (concat cs))
  unfolding concat_parts
  concat_parts-concat root upload_id paths cs d f a b g h =
      let partial = partial_path root upload_id in
      let final = final_path root upload_id in
      let (u, d1, h1, k1) =
        bind_ok (mkdir_all (upload_dir root upload_id))
          (λ _. attempt (stat final) >>= concat_unless md5_sum partial final paths) d h in
      let same = mkdir_all_ok (upload_dir root upload_id) d h1 in
      let d2 = (stat final d1).1 in
      let files = stat-files final d1 ∙ same in
      concat_new_ok partial final paths cs d2 a b
        (Contents-same d d2 paths cs (everywhere d d2 paths files) g)
        (rw (stat-absent final d1 (ap (lookup final) same ∙ f)) at k1)

  concat_parts-repeated :
      (root upload_id : Bytes) (again : List Bytes) (d : Disk) {c : Bytes}
      → file (final_path root upload_id) d ≡ some c
      → NoFaults d
      → concat_parts md5_sum root upload_id again d ≡ (
        ok (write_result md5_sum (final_path root upload_id) c),
        called (called (made (upload_dir root upload_id) d)),
      )
  unfolding concat_parts hash_existing_file made
  concat_parts-repeated root upload_id again d {c = c} h n =
      let final = final_path root upload_id in
      let d1 = made (upload_dir root upload_id) d in
      let n1 = called-NoFaults d n in
      bind_run (mkdir_all (upload_dir root upload_id))
        (λ _.
          attempt (stat final) >>= concat_unless md5_sum (partial_path root upload_id) final again)
        (mkdir_all_run (upload_dir root upload_id) d n)
      ∙ rw (stat_run final d1 n1 h) (
          bind_run (open_file final)
            (λ content.
              return (record (write_result md5_sum final content) { size = pos (length c) }))
            (open_file_run final (called d1) (called-NoFaults d1 n1) h))

  -- After a success the call can be repeated, with whatever paths, as long as the final file is
  -- there: without a failing call it gives the same result and leaves the files as they are. (The
  -- first call is as in concat_parts-concat; the disk of the second has the final file as the
  -- first has left it.)
  pub concat_parts-retry :
      (root upload_id : Bytes) (paths cs again : List Bytes) (d d2 : Disk) {r : WriteResult}
      {e : Disk}
      → file (final_path root upload_id) d ≡ none
      → Apart (partial_path root upload_id) paths
      → AllApart paths
      → Contents d paths cs
      → concat_parts md5_sum root upload_id paths d ≡ (ok r, e)
      → file (final_path root upload_id) d2 ≡ file (final_path root upload_id) e
      → NoFaults d2
      → ((concat_parts md5_sum root upload_id again d2).0 ≡ ok r)
        × (((concat_parts md5_sum root upload_id again d2).1).files ≡ d2.files)
  unfolding made
  concat_parts-retry root upload_id paths cs again d d2 {r = r} f a b g h k n =
      let final = final_path root upload_id in
      let done = concat_parts-concat root upload_id paths cs d f a b g h in
      let d3 = made (upload_dir root upload_id) d2 in
      let there : file final d2 ≡ some (concat cs) = k ∙ done.1 in
      let run = concat_parts-repeated root upload_id again d2 there n in
      (ap (λ x. x.0) run ∙ ap ok (sym done.0), ap (λ x. Disk.files x.1) run)
