-- ===== src/Stage/Gc/Outside.antt =====
-- internal/stage/gc.go: the directories of two uploads have no file in common.
use pterodactyl_proxmox_back.Prelude.{
  ◌≡◌, refl, sym, ap, ◌∙◌, ◌≢◌, inl, inr, true, false, none, List, [], ◌∷◌, ◌++◌, append_assoc,
  arith, if◌then◌else◌, Bool-cases, Bytes, codes, length, drop,
}
use pterodactyl_proxmox_back.Disk.{Disk, file, join_path, files_outside, dirs_outside, remove_all}
use pterodactyl_proxmox_back.Disk.Laws.{call-files}
use pterodactyl_proxmox_back.Stage.{upload_dir}
use pterodactyl_proxmox_back.Strings.{has_prefix}
use pterodactyl_proxmox_back.Strings.Equal.{eq_bytes_iff}
use pterodactyl_proxmox_back.Strings.Split.{NoByte, first_separator}
use pterodactyl_proxmox_back.Strings.Suffix.{append_of_has_prefix}
use pterodactyl_proxmox_back.Bolt.Lists.{lookup}
use pterodactyl_proxmox_back.Prelude.Result.{ok}

pub lookup-files_outside :
    (dir q : Bytes) (l : List (Bytes × Bytes))
    → lookup q (files_outside dir l)
      ≡ (if has_prefix q (join_path dir []) then none else lookup q l)
unfolding lookup files_outside
lookup-files_outside dir q [] = ground arith
lookup-files_outside dir q ((p, c) ∷ l) = ground (
  arith,
  lookup-files_outside dir q l,
  eq_bytes_iff p q,
  ap (λ x. has_prefix x (join_path dir [])),
)

-- a removal of a directory leaves the files that are not below it, also when it fails
pub file-remove_all :
    (dir q : Bytes) (d : Disk)
    → has_prefix q (join_path dir []) ≡ false
    → file q ((remove_all dir d).1) ≡ file q d
unfolding remove_all
file-remove_all dir q d h =
    call-files (λ e. file q e ≡ file q d)
      (λ x. (ok tt, record x { files = files_outside dir x.files; dirs = dirs_outside dir x.dirs }))
      d refl (lookup-files_outside dir q d.files ∙ rw h refl)

append_cancel_left : (m x y : Bytes) → m ++ x ≡ m ++ y → x ≡ y
append_cancel_left [] x y h = h
append_cancel_left (c ∷ m) x y h = append_cancel_left m x y (ap (drop 1) h)

-- a path below the directory of an upload has the id after the directory of all uploads
below_upload :
    (m a q : Bytes)
    → has_prefix q (join_path (join_path m a) []) ≡ true
    → m ++ (b'/' ∷ (a ++ (b'/' ∷ drop (length (join_path (join_path m a) [])) q))) ≡ q
unfolding join_path
below_upload m a q h =
    let rest = drop (length (join_path (join_path m a) [])) q in
    sym (append_assoc m (b'/' ∷ a) (b'/' ∷ rest))
    ∙ sym (append_assoc (m ++ (b'/' ∷ a)) (b'/' ∷ []) rest)
    ∙ append_of_has_prefix q (join_path (join_path m a) []) h

one_upload :
    (m a b q : Bytes)
    → NoByte b'/' a
    → NoByte b'/' b
    → has_prefix q (join_path (join_path m a) []) ≡ true
    → has_prefix q (join_path (join_path m b) []) ≡ true
    → a ≡ b
one_upload m a b q ha hb h k =
    let tail : Bytes → Bytes = λ x. drop (length (join_path (join_path m x) [])) q in
    let same =
      append_cancel_left m (b'/' ∷ (a ++ (b'/' ∷ tail a))) (b'/' ∷ (b ++ (b'/' ∷ tail b)))
        (below_upload m a q h ∙ sym (below_upload m b q k)) in
    (first_separator b'/' a b (tail a) (tail b) ha hb (ap (drop 1) same)).0

-- a file below one upload's directory is not below another's
pub below_one :
    (root a b q : Bytes)
    → NoByte b'/' a
    → NoByte b'/' b
    → a ≢ b
    → has_prefix q (join_path (upload_dir root b) []) ≡ true
    → has_prefix q (join_path (upload_dir root a) []) ≡ false
unfolding upload_dir
below_one root a b q ha hb n h =
    let m = join_path root (codes "multipart") in
    elim (Bool-cases (has_prefix q (join_path (join_path m a) []))) [
      | inl e ↦ elim (n (one_upload m a b q ha hb e h)) [ ]
      | inr e ↦ e
    ]
