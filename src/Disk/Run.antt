-- ===== src/Disk/Run.antt =====
-- The calls of Go's os package succeed when no fault is scheduled.
use pterodactyl_proxmox_back.Prelude.{
  pos, ◌≡◌, refl, ap, ◌∙◌, Option, none, some, [], Bytes, length,
}
use pterodactyl_proxmox_back.Disk.{
  not_exist, Disk, Action, called, call, file, with_file, without_file, add_dir, mkdir_all, create,
  open_file, size_of, stat, written, append, close, remove, rename, found, removed, renamed,
}
use pterodactyl_proxmox_back.Disk.Laws.{call-files}
use pterodactyl_proxmox_back.Prelude.Result.{ok, err}

-- a call succeeds when no fault is scheduled
abbrev pub NoFaults : Disk → Type 0
NoFaults d = d.faults ≡ []

pub call_run {ℓ} : {A : Type ℓ} (m : Action A) (d : Disk) → NoFaults d → call m d ≡ m (called d)
call_run m d h = rw h refl

pub called-NoFaults : (d : Disk) → NoFaults d → NoFaults (called d)
called-NoFaults d h = rw h refl

pub stat_run :
    (p : Bytes) (d : Disk) {c : Bytes}
    → NoFaults d
    → file p d ≡ some c
    → stat p d ≡ (ok (pos (length c)), called d)
unfolding stat
stat_run p d n h = call_run (λ x. size_of (file p x) x) d n ∙ ap (λ o. size_of o (called d)) h

pub open_file_run :
    (p : Bytes) (d : Disk) {c : Bytes}
    → NoFaults d
    → file p d ≡ some c
    → open_file p d ≡ (ok c, called d)
unfolding open_file
open_file_run p d n h = call_run (λ x. found (file p x) x) d n ∙ ap (λ o. found o (called d)) h

unfoldable pub made : Bytes → Disk → Disk
made dir d = record (called d) { dirs = add_dir dir d.dirs }

pub mkdir_all_run : (dir : Bytes) (d : Disk) → NoFaults d → mkdir_all dir d ≡ (ok tt, made dir d)
unfolding mkdir_all made
mkdir_all_run dir d n = call_run (λ x. (ok tt, record x { dirs = add_dir dir x.dirs })) d n

pub create_run :
    (p : Bytes) (d : Disk) → NoFaults d → create p d ≡ (ok tt, with_file p [] (called d))
unfolding create
create_run p d n = call_run (λ x. (ok tt, with_file p [] x)) d n

pub append_run :
    (p more : Bytes) (d : Disk) → NoFaults d → append p more d ≡ (ok tt, written p more (called d))
unfolding append
append_run p more d n = rw n refl

pub close_run : (d : Disk) → NoFaults d → close d ≡ (ok tt, called d)
unfolding close
close_run d n = call_run (λ x. (ok tt, x)) d n

pub rename_run :
    (p q : Bytes) (d : Disk) {c : Bytes}
    → NoFaults d
    → file p d ≡ some c
    → rename p q d ≡ (ok tt, with_file q c (without_file p (called d)))
unfolding rename
rename_run p q d n h =
    call_run (λ x. renamed p q (file p x) x) d n ∙ ap (λ o. renamed p q o (called d)) h

pub remove-NoFaults : (p : Bytes) (d : Disk) → NoFaults d → NoFaults ((remove p d).1)
unfolding remove
remove-NoFaults p d n =
    call-files NoFaults (λ x. removed p (file p x) x) d (called-NoFaults d n)
      (removed-NoFaults p (file p d) (called d) (called-NoFaults d n))
  where
    removed-NoFaults :
        (p : Bytes) (o : Option Bytes) (d : Disk) → NoFaults d → NoFaults ((removed p o d).1)
    removed-NoFaults p none d n = n
    removed-NoFaults p (some c) d n = n

pub stat_absent_run :
    (p : Bytes) (d : Disk) → NoFaults d → file p d ≡ none → stat p d ≡ (err not_exist, called d)
unfolding stat
stat_absent_run p d n h =
    call_run (λ x. size_of (file p x) x) d n ∙ ap (λ o. size_of o (called d)) h
