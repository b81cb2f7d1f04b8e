-- ===== src/Disk/Laws.antt =====
-- What the calls of Go's os package do to the files when they succeed, and that they succeed when
-- no fault is scheduled.
use pterodactyl_proxmox_back.Prelude.{
  ℕ, ◌≡◌, refl, sym, ap, ◌≢◌, Option, none, some, [], if◌then◌else◌, Bytes,
}
use pterodactyl_proxmox_back.Disk.{
  Disk, Action, next_fault, called, checked, call, file, with_file, without_file, add_dir,
  mkdir_all, create, open_file, written, append, close, remove, rename, found, append_checked,
  removed, renamed,
}
use pterodactyl_proxmox_back.Prelude.Result.{ok, ok_injective}
use pterodactyl_proxmox_back.Strings.{eq_bytes}
use pterodactyl_proxmox_back.Strings.Equal.{eq_bytes_ne}
use pterodactyl_proxmox_back.Bolt.Lists.{lookup-insert_pair, lookup-remove_pair}

module _ {ℓ} {A : Type ℓ} where
  -- a call that succeeded took no fault
  pub call_ok :
      (m : Action A) (d : Disk) {a : A} {e : Disk} → call m d ≡ (ok a, e) → m (called d) ≡ (ok a, e)
  call_ok m d h = checked_ok (next_fault d.faults) m (called d) h
    where
      checked_ok :
          (f : Option ℕ) (m : Action A) (d : Disk) {a : A} {e : Disk}
          → checked f m d ≡ (ok a, e)
          → m d ≡ (ok a, e)
      checked_ok none m d h = h
      checked_ok (some n) m d h = cc (ap (λ p. p.0) h)

  -- whether it succeeds or not, a call does what its action does, or nothing
  pub call-files :
      (P : Disk → Type 0) (m : Action A) (d : Disk)
      → P (called d)
      → P ((m (called d)).1)
      → P ((call m d).1)
  call-files P m d h k = checked-files P (next_fault d.faults) m (called d) h k
    where
      checked-files :
          (P : Disk → Type 0) (f : Option ℕ) (m : Action A) (d : Disk)
          → P d
          → P ((m d).1)
          → P ((checked f m d).1)
      checked-files P none m d h k = k
      checked-files P (some n) m d h k = h

pub file-with_file :
    (p q c : Bytes) (d : Disk)
    → file q (with_file p c d) ≡ (if eq_bytes p q then some c else file q d)
file-with_file p q c d = lookup-insert_pair p c q d.files

pub file-without_file :
    (p q : Bytes) (d : Disk) → file q (without_file p d) ≡ (if eq_bytes p q then none else file q d)
file-without_file p q d = lookup-remove_pair p q d.files

pub open_file_ok :
    (p : Bytes) (d : Disk) {c : Bytes} {e : Disk}
    → open_file p d ≡ (ok c, e)
    → (file p d ≡ some c) × (e ≡ called d)
unfolding open_file
open_file_ok p d h = found_ok (file p d) (called d) (call_ok (λ x. found (file p x) x) d h)
  where
    found_ok :
        (o : Option Bytes) (d : Disk) {c : Bytes} {e : Disk}
        → found o d ≡ (ok c, e)
        → (o ≡ some c) × (e ≡ d)
    found_ok none d h = cc (ap (λ p. p.0) h)
    found_ok (some c) d h = (ap some (ok_injective (ap (λ p. p.0) h)), sym (ap (λ p. p.1) h))

pub create_ok :
    (p : Bytes) (d : Disk) {u : Unit {0}} {e : Disk}
    → create p d ≡ (ok u, e)
    → e ≡ with_file p [] (called d)
unfolding create
create_ok p d h = sym (ap (λ r. r.1) (call_ok (λ x. (ok tt, with_file p [] x)) d h))

pub append_ok :
    (p more : Bytes) (d : Disk) {u : Unit {0}} {e : Disk}
    → append p more d ≡ (ok u, e)
    → e ≡ written p more (called d)
unfolding append
append_ok p more d h = append_checked_ok (next_fault d.faults) p more (called d) h
  where
    append_checked_ok :
        (f : Option ℕ) (p more : Bytes) (d : Disk) {u : Unit {0}} {e : Disk}
        → append_checked f p more d ≡ (ok u, e)
        → e ≡ written p more d
    append_checked_ok none p more d h = sym (ap (λ r. r.1) h)
    append_checked_ok (some n) p more d h = cc (ap (λ r. r.0) h)

pub close_ok : (d : Disk) {u : Unit {0}} {e : Disk} → close d ≡ (ok u, e) → e ≡ called d
unfolding close
close_ok d h = sym (ap (λ r. r.1) (call_ok (λ x. (ok tt, x)) d h))

pub mkdir_all_ok :
    (dir : Bytes) (d : Disk) {u : Unit {0}} {e : Disk}
    → mkdir_all dir d ≡ (ok u, e)
    → (e.files ≡ d.files)
unfolding mkdir_all
mkdir_all_ok dir d h =
    sym (
      ap (λ r. Disk.files r.1) (call_ok (λ x. (ok tt, record x { dirs = add_dir dir x.dirs })) d h))

pub rename_ok :
    (p q : Bytes) (d : Disk) {u : Unit {0}} {e : Disk} {c : Bytes}
    → rename p q d ≡ (ok u, e)
    → file p d ≡ some c
    → e ≡ with_file q c (without_file p (called d))
unfolding rename
rename_ok p q d {c = c} h f =
    renamed_ok p q (called d) c (rw f at (call_ok (λ x. renamed p q (file p x) x) d h))
  where
    renamed_ok :
        (p q : Bytes) (d : Disk) (c : Bytes) {u : Unit {0}} {e : Disk}
        → renamed p q (some c) d ≡ (ok u, e)
        → e ≡ with_file q c (without_file p d)
    renamed_ok p q d c h = sym (ap (λ r. r.1) h)

-- a remove leaves the other files, also when it fails
pub file-remove : (p q : Bytes) (d : Disk) → p ≢ q → file q ((remove p d).1) ≡ file q d
unfolding remove
file-remove p q d n =
    call-files (λ e. file q e ≡ file q d) (λ x. removed p (file p x) x) d refl
      (file-removed p q (file p d) (called d) n)
  where
    file-removed :
        (p q : Bytes) (o : Option Bytes) (d : Disk) → p ≢ q → file q ((removed p o d).1) ≡ file q d
    file-removed p q none d n = refl
    file-removed p q (some c) d n = rw (file-without_file p q d, eq_bytes_ne p q n)
