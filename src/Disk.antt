-- ===== src/Disk.antt =====
-- The files that the bridge keeps, with what it uses of Go's os package. A path is clean, and
-- joining two is putting a `/` between them. Each call takes the next fault of a schedule: it may
-- fail, and a write then has written only a first part. A file is created in a directory that
-- exists: every caller makes it first.
pub mod Laws
pub mod Run
use pterodactyl_proxmox_back.Prelude.{
  ℤ, pos, ℕ, Bool, true, false, ◌||◌, Option, none, some, List, [], ◌∷◌, ◌++◌, if◌then◌else◌, Bytes,
  length, take, drop,
}
use pterodactyl_proxmox_back.Prelude.Steps.{Steps}
use pterodactyl_proxmox_back.Strings.{eq_bytes, has_prefix, cut}
use pterodactyl_proxmox_back.Bolt.Lists.{lookup, insert_pair, remove_pair}
use pterodactyl_proxmox_back.Prelude.Result.{ok, err}

pub data OsError : Type 0 where
  not_exist os_failed : OsError

pub record Disk : Type 0 where
  pub files : List (Bytes × Bytes)
  pub dirs : List Bytes
  -- for each call to come, how much of a write is done before it fails, if it fails
  pub faults : List (Option ℕ)
  -- the names that os.CreateTemp draws
  pub drawn : List Bytes

abbrev pub Action {ℓ} : Type ℓ → Type ℓ
Action A = Steps OsError Disk A

abbrev pub next_fault : List (Option ℕ) → Option ℕ
next_fault [] = none
next_fault (f ∷ fs) = f

abbrev pub later_faults : List (Option ℕ) → List (Option ℕ)
later_faults [] = []
later_faults (f ∷ fs) = fs

abbrev pub called : Disk → Disk
called d = record d { faults = later_faults d.faults }

abbrev pub checked {ℓ} : {A : Type ℓ} → Option ℕ → Action A → Action A
checked none m d = m d
checked (some n) m d = (err os_failed, d)

-- a call of os that takes the next fault
abbrev pub call {ℓ} : {A : Type ℓ} → Action A → Action A
call m d = checked (next_fault d.faults) m (called d)

abbrev pub file : Bytes → Disk → Option Bytes
file path d = lookup path d.files

-- filepath.Join of two parts
unfoldable pub join_path : Bytes → Bytes → Bytes
join_path dir name = dir ++ (b'/' ∷ name)

abbrev pub with_file : Bytes → Bytes → Disk → Disk
with_file path content d = record d { files = insert_pair path content d.files }

abbrev pub without_file : Bytes → Disk → Disk
without_file path d = record d { files = remove_pair path d.files }

abbrev pub is_member : Bytes → List Bytes → Bool
is_member p [] = false
is_member p (q ∷ qs) = eq_bytes p q || is_member p qs

-- the directory, which is kept once; its parents are taken to exist
unfoldable pub add_dir : Bytes → List Bytes → List Bytes
add_dir dir dirs = if is_member dir dirs then dirs else dir ∷ dirs

unfoldable pub mkdir_all : Bytes → Action (Unit {0})
mkdir_all dir = call (λ d. (ok tt, record d { dirs = add_dir dir d.dirs }))

-- os.Create: an empty file in the place of one that is there
unfoldable pub create : Bytes → Action (Unit {0})
create path = call (λ d. (ok tt, with_file path [] d))

abbrev found : Option Bytes → Action Bytes
found none d = (err not_exist, d)
found (some content) d = (ok content, d)

-- os.Open, and what is then read
unfoldable pub open_file : Bytes → Action Bytes
open_file path = call (λ d. found (file path d) d)

abbrev pub size_of : Option Bytes → Action ℤ
size_of none d = (err not_exist, d)
size_of (some content) d = (ok (pos (length content)), d)

-- the size that os.Stat tells
unfoldable pub stat : Bytes → Action ℤ
stat path = call (λ d. size_of (file path d) d)

abbrev pub content_of : Option Bytes → Bytes
content_of none = []
content_of (some content) = content

abbrev pub written : Bytes → Bytes → Disk → Disk
written path more d = with_file path (content_of (file path d) ++ more) d

abbrev append_checked : Option ℕ → Bytes → Bytes → Action (Unit {0})
append_checked none path more d = (ok tt, written path more d)
append_checked (some n) path more d = (err os_failed, written path (take n more) d)

-- the writes to an open file
unfoldable pub append : Bytes → Bytes → Action (Unit {0})
append path more d = append_checked (next_fault d.faults) path more (called d)

unfoldable pub close : Action (Unit {0})
close = call (λ d. (ok tt, d))

abbrev removed : Bytes → Option Bytes → Action (Unit {0})
removed path none d = (err not_exist, d)
removed path (some content) d = (ok tt, without_file path d)

unfoldable pub remove : Bytes → Action (Unit {0})
remove path = call (λ d. removed path (file path d) d)

abbrev renamed : Bytes → Bytes → Option Bytes → Action (Unit {0})
renamed from to none d = (err not_exist, d)
renamed from to (some content) d = (ok tt, with_file to content (without_file from d))

unfoldable pub rename : Bytes → Bytes → Action (Unit {0})
rename from to = call (λ d. renamed from to (file from d) d)

-- the files that are not below a directory, and the directories that are neither it nor below it
unfoldable pub files_outside : Bytes → List (Bytes × Bytes) → List (Bytes × Bytes)
files_outside dir [] = []
files_outside dir ((p, c) ∷ l) =
    let rest = files_outside dir l in
    if has_prefix p (join_path dir []) then rest else (p, c) ∷ rest

unfoldable pub dirs_outside : Bytes → List Bytes → List Bytes
dirs_outside dir [] = []
dirs_outside dir (p ∷ l) =
    let rest = dirs_outside dir l in
    if eq_bytes p dir || has_prefix p (join_path dir []) then rest else p ∷ rest

unfoldable pub remove_all : Bytes → Action (Unit {0})
remove_all dir =
    call
      (λ d. (ok tt, record d { files = files_outside dir d.files; dirs = dirs_outside dir d.dirs }))

-- the first name that is free, with the names after it
unfoldable pub pick :
    (Bytes → Bytes) → List (Bytes × Bytes) → List Bytes → Option (Bytes × List Bytes)
pick path_of files [] = none
pick path_of files (name ∷ names) =
    let rest = pick path_of files names in
    elim (lookup (path_of name) files) [ none ↦ some (path_of name, names) | some c ↦ rest ]

-- the text before and after the `*` of a pattern
abbrev around : Bytes → Option (Bytes × Bytes) → Bytes × Bytes
around pattern none = (pattern, [])
around pattern (some (a, b)) = (a, b)

abbrev pub temp_path : Bytes → Bytes → Bytes → Bytes
temp_path dir name_pattern name =
    let (a, b) = around name_pattern (cut b'*' name_pattern) in join_path dir (a ++ name ++ b)

abbrev pub picked : Option (Bytes × List Bytes) → Action Bytes
picked none d = (err os_failed, d)
picked (some (path, names)) d = (ok path, with_file path [] (record d { drawn = names }))

-- os.CreateTemp
unfoldable pub create_temp : Bytes → Bytes → Action Bytes
create_temp dir name_pattern =
    call (λ d. picked (pick (temp_path dir name_pattern) d.files d.drawn) d)

abbrev direct_child : Option (Bytes × Bytes) → Bytes → Option Bytes
direct_child none name = some name
direct_child (some (a, b)) name = none

-- the name of a path in a directory
unfoldable pub child_name : Bytes → Bytes → Option Bytes
child_name dir path =
    let rest = drop (length (join_path dir [])) path in
    if has_prefix path (join_path dir []) then direct_child (cut b'/' rest) rest else none

abbrev pub Entry : Type 0
Entry = Bytes × Bool

abbrev pub add_entry : Bool → Option Bytes → List Entry → List Entry
add_entry is_dir none entries = entries
add_entry is_dir (some name) entries = (name, is_dir) ∷ entries

unfoldable pub file_entries : Bytes → List (Bytes × Bytes) → List Entry
file_entries dir [] = []
file_entries dir ((p, c) ∷ l) = add_entry false (child_name dir p) (file_entries dir l)

unfoldable pub dir_entries : Bytes → List Bytes → List Entry → List Entry
dir_entries dir [] entries = entries
dir_entries dir (p ∷ l) entries = add_entry true (child_name dir p) (dir_entries dir l entries)

-- os.ReadDir: the names in a directory, and whether they are directories. (Their order, which is
-- that of the names, plays no part where they are used.)
unfoldable pub read_dir : Bytes → Action (List Entry)
read_dir dir = call (λ d. (
  if is_member dir d.dirs
      then ok (dir_entries dir d.dirs (file_entries dir d.files))
      else err not_exist,
  d,
))
