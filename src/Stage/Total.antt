-- ===== src/Stage/Total.antt =====
-- internal/stage/staging.go: ConcatParts succeeds when the parts are there and no call fails.
use pterodactyl_proxmox_back.Prelude.Steps.{
  ◌>>=◌, ◌>>◌, return, attempt, after_error, or_clean, bind_run,
}
use pterodactyl_proxmox_back.Prelude.{
  ◌≡◌, refl, ap, ◌∙◌, none, some, List, [], ◌∷◌, ◌++◌, Bytes, all,
}
use pterodactyl_proxmox_back.Disk.{
  Disk, Action, called, file, with_file, without_file, mkdir_all, create, open_file, stat, written,
  append, close, remove, rename,
}
use pterodactyl_proxmox_back.Disk.Laws.{file-with_file}
use pterodactyl_proxmox_back.Disk.Run.{
  NoFaults, called-NoFaults, open_file_run, made, mkdir_all_run, create_run, append_run, close_run,
  rename_run, remove-NoFaults, stat_absent_run,
}
use pterodactyl_proxmox_back.Stage.{
  upload_dir, final_path, partial_path, copy_part, copy_parts, write_result, concat_new,
  concat_parts, concat_unless,
}
use pterodactyl_proxmox_back.Stage.Copy.{
  Contents, Apart, AllApart, concat, Contents-same, copy_part_ok, All-kept, copy_parts_ok,
  everywhere, kept-create,
}
use pterodactyl_proxmox_back.Stage.Concat.{concat_parts-concat}
use pterodactyl_proxmox_back.Prelude.Result.{ok}
use pterodactyl_proxmox_back.Strings.Equal.{eq_bytes_refl}

or_clean_run {ℓ} :
    {A : Type ℓ} (m : Action A) (clean : Action (Unit {0})) (d : Disk) {a : A} {e : Disk}
    → m d ≡ (ok a, e)
    → or_clean m clean d ≡ (ok a, e)
or_clean_run m clean d h = ap (λ r. after_error r clean) h

-- a success that leaves no fault to come
Runs {ℓ} : {A : Type ℓ} → Action A → Disk → Type ℓ
Runs {A = A} m d = (a : A) × (e : Disk) × (m d ≡ (ok a, e)) × NoFaults e

copy_part-Runs :
    (partial path : Bytes) (d : Disk) {c : Bytes}
    → NoFaults d
    → file path d ≡ some c
    → Runs (copy_part partial path) d
unfolding Runs copy_part
copy_part-Runs partial path d {c = c} n h =
    let n1 = called-NoFaults d n in
    let d2 = written partial c (called (called d)) in
    (
      c,
      (remove path d2).1,
      bind_run (or_clean (open_file path) (remove partial))
            (λ x.
              or_clean (append partial x) (remove partial)
              >> (attempt (remove path) >>= λ _. return x))
            (or_clean_run (open_file path) (remove partial) d (open_file_run path d n h))
          ∙ bind_run (or_clean (append partial c) (remove partial))
              (λ _. attempt (remove path) >>= λ _. return c)
              (or_clean_run (append partial c) (remove partial) (called d)
                (append_run partial c (called d) n1)),
      remove-NoFaults path d2 (called-NoFaults (called d) n1),
    )

copy_parts-Runs :
    (partial seen : Bytes) (paths cs : List Bytes) (d : Disk)
    → Apart partial paths
    → AllApart paths
    → file partial d ≡ some seen
    → Contents d paths cs
    → NoFaults d
    → Runs (copy_parts partial seen paths) d
unfolding Runs copy_parts
copy_parts-Runs partial seen [] cs d a b f g n = (seen, d, refl, n)
copy_parts-Runs partial seen (p ∷ ps) [] d a b f g n = elim g [ ]
copy_parts-Runs partial seen (p ∷ ps) (c0 ∷ cs) d a b f g n =
    let (c, d1, h, n1) = copy_part-Runs partial p d n g.0 in
    let (same, copied) = copy_part_ok partial p seen c0 d a.0 f g.0 h in
    let (all, e, k, m) =
      copy_parts-Runs partial (seen ++ c) ps cs d1 a.1 b.1 (copied.0 ∙ rw same refl)
        (Contents-same d d1 ps cs (All-kept partial p d d1 ps copied.1 a.1 b.0) g.1) n1 in
    (all, e, bind_run (copy_part partial p) (λ x. copy_parts partial (seen ++ x) ps) h ∙ k, m)

module _ (md5_sum : Bytes → Bytes) where
  concat_new-Runs :
      (partial final : Bytes) (paths cs : List Bytes) (d : Disk)
      → Apart partial paths
      → AllApart paths
      → Contents d paths cs
      → NoFaults d
      → Runs (concat_new md5_sum partial final paths) d
  unfolding Runs concat_new
  concat_new-Runs partial final paths cs d a b g n =
      let d1 = with_file partial [] (called d) in
      let empty : file partial d1 ≡ some [] =
        file-with_file partial partial [] (called d) ∙ rw (eq_bytes_refl partial) refl in
      let there = Contents-same d d1 paths cs (kept-create partial d d1 paths a refl) g in
      let (c, d2, h, n2) =
        copy_parts-Runs partial [] paths cs d1 a b empty there (called-NoFaults d n) in
      let copied = copy_parts_ok partial [] paths cs d1 a b empty there h in
      let n3 = called-NoFaults d2 n2 in
      (
        write_result md5_sum final c,
        with_file final (concat cs) (without_file partial (called (called d2))),
        bind_run (create partial)
              (λ _. copy_parts partial [] paths >>= λ c.
                close >> (rename partial final >> return (write_result md5_sum final c)))
              (create_run partial d n)
            ∙ bind_run (copy_parts partial [] paths)
                (λ c. close >> (rename partial final >> return (write_result md5_sum final c))) h
            ∙ bind_run close (λ _. rename partial final >> return (write_result md5_sum final c))
                (close_run d2 n2)
            ∙ bind_run (rename partial final) (λ _. return (write_result md5_sum final c))
                (rename_run partial final (called d2) n3 copied.1),
        called-NoFaults (called d2) n3,
      )

  -- ConcatParts succeeds when no call fails, there is no final file, and the parts are there, at
  -- different paths and none at that of the partial file. The result is then that of the texts of
  -- the parts in their order, and they are in the final file.
  pub concat_parts_total :
      (root upload_id : Bytes) (paths cs : List Bytes) (d : Disk)
      → file (final_path root upload_id) d ≡ none
      → Apart (partial_path root upload_id) paths
      → AllApart paths
      → Contents d paths cs
      → NoFaults d
      → (e : Disk) × (concat_parts md5_sum root upload_id paths d
          ≡ (ok (write_result md5_sum (final_path root upload_id) (concat cs)), e))
        × (file (final_path root upload_id) e ≡ some (concat cs))
  unfolding Runs concat_parts made
  concat_parts_total root upload_id paths cs d f a b g n =
      let partial = partial_path root upload_id in
      let final = final_path root upload_id in
      let d1 = made (upload_dir root upload_id) d in
      let d2 = called d1 in
      let n1 = called-NoFaults d n in
      let (r, e, h, m) =
        concat_new-Runs partial final paths cs d2 a b
          (Contents-same d d2 paths cs (everywhere d d2 paths refl) g) (called-NoFaults d1 n1) in
      let run : concat_parts md5_sum root upload_id paths d ≡ (ok r, e) =
        bind_run (mkdir_all (upload_dir root upload_id))
          (λ _. attempt (stat final) >>= concat_unless md5_sum partial final paths)
          (mkdir_all_run (upload_dir root upload_id) d n)
        ∙ rw (stat_absent_run final d1 n1 f) h in
      let right = concat_parts-concat md5_sum root upload_id paths cs d f a b g run in
      (e, run ∙ ap (λ x. (ok x, e)) right.0, right.1)
