-- ===== src/Stage/Tests.antt =====
-- A disk with the two parts of an upload, and the theorems at it.
use pterodactyl_proxmox_back.Prelude.{
  pos, ℕ, ◌%◌, ◌≡◌, refl, false, Option, none, some, List, [], ◌∷◌, Bytes, codes,
}
use pterodactyl_proxmox_back.Strings.Equal.{ne_of_eq_bytes}
use pterodactyl_proxmox_back.Prelude.Result.{Result, ok}
use pterodactyl_proxmox_back.Samples.{total}
use pterodactyl_proxmox_back.Disk.{
  OsError, Disk, file, join_path, add_dir, mkdir_all, create, open_file, stat, append, close,
  remove, rename,
}
use pterodactyl_proxmox_back.Stage.{
  WriteResult, upload_dir, final_path, partial_path, copy_part, copy_parts, part_path, write_result,
  copy_body, concat_new, concat_parts, write_part,
}
use pterodactyl_proxmox_back.Stage.Copy.{Contents, Apart, AllApart, concat}
use pterodactyl_proxmox_back.Stage.Concat.{concat_parts-concat, concat_parts-retry}
use pterodactyl_proxmox_back.Stage.Total.{concat_parts_total}
use pterodactyl_proxmox_back.S3Api.{Stream}
use pterodactyl_proxmox_back.Strings.{eq_bytes, lt_bytes}
use pterodactyl_proxmox_back.Bolt.Lists.{lookup, insert_pair, remove_pair}

abbrev sum : Bytes → Bytes
sum m = total m % 256 ∷ []

abbrev two_parts : List (Option ℕ) → Disk
two_parts faults = record {
  files = (codes "a", codes "xy") ∷ (codes "b", codes "z") ∷ [];
  dirs = [];
  faults = faults;
  drawn = [];
}

-- the removal of the first part is to fail
abbrev kept_part : List (Option ℕ)
kept_part = none ∷ none ∷ none ∷ none ∷ none ∷ some 0 ∷ []

abbrev ab : List Bytes
ab = codes "a" ∷ codes "b" ∷ []

abbrev texts : List Bytes
texts = codes "xy" ∷ codes "z" ∷ []

abbrev joined : List (Option ℕ) → Result OsError WriteResult × Disk
joined faults = concat_parts sum (codes "r") (codes "u") ab (two_parts faults)

abbrev xyz : WriteResult
xyz = write_result sum (final_path (codes "r") (codes "u")) (codes "xyz")

joined_run : joined kept_part ≡ (ok xyz, (joined kept_part).1)
unfolding concat_parts concat_new copy_parts copy_part mkdir_all add_dir stat create open_file
    append close rename remove lookup insert_pair remove_pair eq_bytes lt_bytes join_path upload_dir
    final_path
joined_run = refl

no_final : file (final_path (codes "r") (codes "u")) (two_parts kept_part) ≡ none
unfolding lookup eq_bytes join_path upload_dir final_path
no_final = refl

ab-Apart : Apart (partial_path (codes "r") (codes "u")) ab
unfolding join_path upload_dir final_path
ab-Apart = ((λ e. cc e), ((λ e. cc e), tt))

ab-AllApart : AllApart ab
unfolding eq_bytes
ab-AllApart = ((ne_of_eq_bytes (codes "a") (codes "b") refl, tt), (tt, tt))

ab-Contents : (faults : List (Option ℕ)) → Contents (two_parts faults) ab texts
unfolding lookup eq_bytes
ab-Contents faults = (refl, (refl, tt))

concat_parts-concat_example :
    (xyz ≡ write_result sum (final_path (codes "r") (codes "u")) (concat texts))
    × (file (final_path (codes "r") (codes "u")) ((joined kept_part).1) ≡ some (concat texts))
concat_parts-concat_example =
    concat_parts-concat sum (codes "r") (codes "u") ab texts (two_parts kept_part) no_final ab-Apart
      ab-AllApart (ab-Contents kept_part) joined_run

-- what is left after the first call, without a fault to come
abbrev left : Disk
left = record ((joined kept_part).1) { faults = [] }

concat_parts-retry_example :
    ((concat_parts sum (codes "r") (codes "u") [] left).0 ≡ ok xyz)
    × (((concat_parts sum (codes "r") (codes "u") [] left).1).files ≡ left.files)
concat_parts-retry_example =
    concat_parts-retry sum (codes "r") (codes "u") ab texts [] (two_parts kept_part) left no_final
      ab-Apart ab-AllApart (ab-Contents kept_part) joined_run refl refl

concat_parts_total_example :
    (e : Disk) × (joined []
      ≡ (ok (write_result sum (final_path (codes "r") (codes "u")) (concat texts)), e))
    × (file (final_path (codes "r") (codes "u")) e ≡ some (concat texts))
concat_parts_total_example =
    concat_parts_total sum (codes "r") (codes "u") ab texts (two_parts []) no_final ab-Apart
      ab-AllApart (ab-Contents []) refl

abbrev body : Stream
body = record { content = codes "new"; is_broken = false }

abbrev written_part : Result OsError WriteResult × Disk
written_part = write_part sum (codes "r") (codes "u") (pos 3) body (two_parts [])

abbrev new_part : WriteResult
new_part = write_result sum (part_path (codes "r") (codes "u") (pos 3)) (codes "new")

written_part_run : written_part ≡ (ok new_part, written_part.1)
unfolding write_part mkdir_all add_dir create append copy_body lookup insert_pair eq_bytes lt_bytes
    join_path upload_dir part_path
written_part_run = refl
