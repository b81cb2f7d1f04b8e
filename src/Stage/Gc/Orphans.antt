-- ===== src/Stage/Gc/Orphans.antt =====
-- internal/stage/gc.go: what the bridge removes of the scratch directory as it starts.
use pterodactyl_proxmox_back.Prelude.{
  ℕ, ◌≡◌, refl, sym, ap, ◌∙◌, ◌≢◌, inl, inr, Bool, true, false, not, ◌||◌, none, some, List, [],
  ◌∷◌, arith, if◌then◌else◌, ==_iff, Bool-cases, Option-cases, Bytes, codes, length, drop, All,
}
use pterodactyl_proxmox_back.Disk.{
  OsError, not_exist, Disk, file, join_path, is_member, remove_all, child_name, Entry, add_entry,
  file_entries, dir_entries, read_dir,
}
use pterodactyl_proxmox_back.Strings.{has_prefix, cut}
use pterodactyl_proxmox_back.Strings.Split.{NoByte}
use pterodactyl_proxmox_back.Stage.{upload_dir}
use pterodactyl_proxmox_back.Stage.Gc.{
  is_known, remove_orphans, Kept, reconcile_on_startup, reconciled,
}
use pterodactyl_proxmox_back.Stage.Gc.Outside.{file-remove_all, below_one}
use pterodactyl_proxmox_back.Bolt.{Bolt}
use pterodactyl_proxmox_back.Store.Multipart.{list_all_upload_ids}
use pterodactyl_proxmox_back.Disk.Laws.{call_ok, call-files}
use pterodactyl_proxmox_back.Bolt.Lists.{lookup}
use pterodactyl_proxmox_back.Prelude.Result.{Result, ok, err, ok_injective}

cut-NoByte : (sep : ℕ) (s : Bytes) → cut sep s ≡ none → NoByte sep s
unfolding cut
cut-NoByte sep [] h = tt
cut-NoByte sep (c ∷ s) h = ground (arith, cut-NoByte sep s, ==_iff c sep)

SlashFree : List Entry → Type 0
SlashFree entries = All (λ e. NoByte b'/' e.0) entries

child_name-NoByte : (dir path name : Bytes) → child_name dir path ≡ some name → NoByte b'/' name
unfolding child_name
child_name-NoByte dir path name h =
    let rest = drop (length (join_path dir [])) path in
    ground (arith, cut-NoByte b'/' rest, ap (NoByte b'/'))

add_entry-SlashFree :
    (is_dir : Bool) (dir path : Bytes) (entries : List Entry)
    → SlashFree entries
    → SlashFree (add_entry is_dir (child_name dir path) entries)
unfolding SlashFree
add_entry-SlashFree is_dir dir path entries h = elim (Option-cases (child_name dir path)) [
  | inl n ↦ rw n h
  | inr (name, e) ↦ rw e (child_name-NoByte dir path name e, h)
]

file_entries-SlashFree : (dir : Bytes) (l : List (Bytes × Bytes)) → SlashFree (file_entries dir l)
unfolding file_entries SlashFree
file_entries-SlashFree dir [] = tt
file_entries-SlashFree dir ((p, c) ∷ l) =
    add_entry-SlashFree false dir p (file_entries dir l) (file_entries-SlashFree dir l)

dir_entries-SlashFree :
    (dir : Bytes) (l : List Bytes) (entries : List Entry)
    → SlashFree entries
    → SlashFree (dir_entries dir l entries)
unfolding dir_entries
dir_entries-SlashFree dir [] entries h = h
dir_entries-SlashFree dir (p ∷ l) entries h =
    add_entry-SlashFree true dir p (dir_entries dir l entries)
      (dir_entries-SlashFree dir l entries h)

multipart_root : Bytes → Bytes
multipart_root root = join_path root (codes "multipart")

below_multipart :
    (root a b q : Bytes)
    → NoByte b'/' a
    → NoByte b'/' b
    → a ≢ b
    → has_prefix q (join_path (upload_dir root b) []) ≡ true
    → has_prefix q (join_path (join_path (multipart_root root) a) []) ≡ false
unfolding multipart_root upload_dir
below_multipart root a b q ha hb n h = below_one root a b q ha hb n h

-- a known upload is not among what is removed
remove_orphans-known :
    (root b q : Bytes) (known : List Bytes) (entries : List Entry) (d : Disk)
    → NoByte b'/' b
    → is_known b known ≡ true
    → has_prefix q (join_path (upload_dir root b) []) ≡ true
    → SlashFree entries
    → file q (remove_orphans (multipart_root root) known entries d) ≡ file q d
unfolding remove_orphans SlashFree multipart_root
remove_orphans-known root b q known [] d hb k h s = refl
remove_orphans-known root b q known ((name, is_dir) ∷ entries) d hb k h (sn, s) =
    remove_orphans-known root b q known entries
      (if not is_dir || is_known name known
        then d
        else (remove_all (join_path (multipart_root root) name) d).1)
      hb k h s
    ∙ elim (Bool-cases (not is_dir || is_known name known)) [
      | inl e ↦ rw e refl
      | inr e ↦
          let other : name ≢ b = λ x. ground (arith, rw x at e, k) in
          rw e (turned root name b q d sn hb other h)
    ]
  where
    turned :
        (root name b q : Bytes) (d : Disk)
        → NoByte b'/' name
        → NoByte b'/' b
        → name ≢ b
        → has_prefix q (join_path (upload_dir root b) []) ≡ true
        → file q ((remove_all (join_path (multipart_root root) name) d).1) ≡ file q d
    turned root name b q d sn hb n h =
        file-remove_all (join_path (multipart_root root) name) q d
          (below_multipart root name b q sn hb n h)

listed : Bytes → Disk → Result OsError (List Entry)
listed dir d =
    if is_member dir d.dirs
    then ok (dir_entries dir d.dirs (file_entries dir d.files))
    else err not_exist

read_dir_ok :
    (dir : Bytes) (d : Disk) {entries : List Entry} {e : Disk}
    → read_dir dir d ≡ (ok entries, e)
    → SlashFree entries × (e.files ≡ d.files)
unfolding read_dir listed
read_dir_ok dir d h =
    let body = call_ok (λ x. (listed dir x, x)) d h in
    (
      of_member (is_member dir d.dirs) dir d (ap (λ r. r.0) body),
      ap (λ r. Disk.files r.1) (sym body),
    )
  where
    of_member :
        (there : Bool) (dir : Bytes) (d : Disk) {entries : List Entry}
        → ◌≡◌ {A = Result OsError (List Entry)}
            (if there
              then ok (dir_entries dir d.dirs (file_entries dir d.files))
              else err not_exist)
            (ok entries)
        → SlashFree entries
    of_member true dir d h = rw (sym (ok_injective h)) (
        dir_entries-SlashFree dir d.dirs (file_entries dir d.files)
          (file_entries-SlashFree dir d.files))
    of_member false dir d h = cc

read_dir-files : (dir : Bytes) (d : Disk) → ((read_dir dir d).1).files ≡ d.files
unfolding read_dir listed
read_dir-files dir d = call-files (λ e. e.files ≡ d.files) (λ x. (listed dir x, x)) d refl refl

reconciled-known :
    (root b q : Bytes) (known : List Bytes) (d : Disk) (r : Result OsError (List Entry) × Disk)
    → NoByte b'/' b
    → is_known b known ≡ true
    → has_prefix q (join_path (upload_dir root b) []) ≡ true
    → read_dir (multipart_root root) d ≡ r
    → file q (reconciled (multipart_root root) known r) ≡ file q d
reconciled-known root b q known d (err e, d1) hb k h r =
    ap (lookup q) (ap (λ x. Disk.files x.1) (sym r) ∙ read_dir-files (multipart_root root) d)
reconciled-known root b q known d (ok entries, d1) hb k h r =
    let done = read_dir_ok (multipart_root root) d r in
    remove_orphans-known root b q known entries d1 hb k h done.0 ∙ ap (lookup q) done.1

module _ (bolt : Bolt) where
  -- Whichever calls fail as the bridge starts, the files below the directory of an upload that the
  -- database has are left as they are, and so is the database. (Its id has no slash.)
  pub reconcile_on_startup-known :
      (root b q : Bytes) (kept : Kept bolt)
      → NoByte b'/' b
      → is_known b (list_all_upload_ids bolt kept.0) ≡ true
      → has_prefix q (join_path (upload_dir root b) []) ≡ true
      → (file q ((reconcile_on_startup bolt root kept).1) ≡ file q kept.1)
        × ((reconcile_on_startup bolt root kept).0 ≡ kept.0)
  unfolding reconcile_on_startup multipart_root
  reconcile_on_startup-known root b q (db, d) hb k h = (
    reconciled-known root b q (list_all_upload_ids bolt db) d (read_dir (multipart_root root) d) hb
        k h refl,
    refl,
  )
