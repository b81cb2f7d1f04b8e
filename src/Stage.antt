-- ===== src/Stage.antt =====
-- internal/stage/staging.go: the files in which the bodies of requests and the parts of uploads
-- are kept on the disk.
pub mod Copy
pub mod Concat
pub mod Total
pub mod Temp
pub mod Gc
pub mod Tests
use pterodactyl_proxmox_back.Prelude.Steps.{◌>>=◌, ◌>>◌, return, attempt, or_clean}
use pterodactyl_proxmox_back.Prelude.{
  ℤ, pos, Bool, true, false, Option, none, some, List, [], ◌∷◌, ◌++◌, Bytes, codes, length,
}
use pterodactyl_proxmox_back.Disk.{
  os_failed, Action, join_path, mkdir_all, create, open_file, stat, append, close, remove, rename,
  remove_all, create_temp,
}
use pterodactyl_proxmox_back.Prelude.Result.{ok, err}
use pterodactyl_proxmox_back.Strings.Decimal.{padded}
use pterodactyl_proxmox_back.Strings.Hex.{hex}
use pterodactyl_proxmox_back.S3Api.{Stream}

pub record WriteResult : Type 0 where
  pub path : Bytes
  pub size : ℤ
  pub md5 : Bytes

-- the end of io.Copy from a body that may break off
abbrev read_to_end : Bool → Action (Unit {0})
read_to_end true d = (err os_failed, d)
read_to_end false d = (ok tt, d)

unfoldable pub upload_dir : Bytes → Bytes → Bytes
upload_dir root upload_id = join_path (join_path root (codes "multipart")) upload_id

unfoldable pub remove_upload_dir : Bytes → Bytes → Action (Unit {0})
remove_upload_dir root upload_id = remove_all (upload_dir root upload_id)

unfoldable pub final_path : Bytes → Bytes → Bytes
final_path root upload_id = join_path (upload_dir root upload_id) (codes "final.img")

abbrev pub partial_path : Bytes → Bytes → Bytes
partial_path root upload_id = final_path root upload_id ++ codes ".partial"

-- one turn of the loop: the bytes of a part are copied behind the others, and the part is gone
unfoldable pub copy_part : Bytes → Bytes → Action Bytes
copy_part partial path = do
  content ← or_clean (open_file path) (remove partial)
  or_clean (append partial content) (remove partial)
  _ ← attempt (remove path)
  return content

-- the loop, with the bytes that the hash has seen
unfoldable pub copy_parts : Bytes → Bytes → List Bytes → Action Bytes
copy_parts partial seen [] = return seen
copy_parts partial seen (path ∷ paths) = do
  content ← copy_part partial path
  copy_parts partial (seen ++ content) paths

unfoldable pub temp_file_path : Bytes → Bytes → Bytes → Action Bytes
temp_file_path root dir name_pattern =
    let full_dir = join_path root dir in
    do mkdir_all full_dir; path ← create_temp full_dir name_pattern; remove path; return path

unfoldable pub part_path : Bytes → Bytes → ℤ → Bytes
part_path root upload_id n = join_path (upload_dir root upload_id) (codes "part-" ++ padded 5 n)

module _ (md5_sum : Bytes → Bytes) where
  -- a file whose bytes the hash has seen
  abbrev pub write_result : Bytes → Bytes → WriteResult
  write_result path content = record {
    path = path;
    size = pos (length content);
    md5 = hex (md5_sum content);
  }

  unfoldable pub copy_body : Bytes → Stream → Action WriteResult
  copy_body path body = do
    append path body.content
    read_to_end body.is_broken
    return (write_result path body.content)

  unfoldable pub write_to_temp : Bytes → Bytes → Bytes → Stream → Action WriteResult
  write_to_temp root dir name_pattern body =
      let full_dir = join_path root dir in
      do
        mkdir_all full_dir
        path ← create_temp full_dir name_pattern
        or_clean (copy_body path body) (remove path)

  unfoldable pub hash_existing_file : Bytes → ℤ → Action WriteResult
  hash_existing_file path size = do
    content ← open_file path
    return (record (write_result path content) { size = size })

  unfoldable pub concat_new : Bytes → Bytes → List Bytes → Action WriteResult
  concat_new partial final paths = do
    create partial
    content ← copy_parts partial [] paths
    close
    rename partial final
    return (write_result final content)

  -- whatever the error of os.Stat is, the file is made
  abbrev concat_unless : Bytes → Bytes → List Bytes → Option ℤ → Action WriteResult
  concat_unless partial final paths none = concat_new partial final paths
  concat_unless partial final paths (some size) = hash_existing_file final size

  unfoldable pub concat_parts : Bytes → Bytes → List Bytes → Action WriteResult
  concat_parts root upload_id paths = do
    mkdir_all (upload_dir root upload_id)
    old ← attempt (stat (final_path root upload_id))
    concat_unless (partial_path root upload_id) (final_path root upload_id) paths old

  unfoldable pub write_part : Bytes → Bytes → ℤ → Stream → Action WriteResult
  write_part root upload_id n body =
      let path = part_path root upload_id n in
      do
        mkdir_all (upload_dir root upload_id)
        create path
        or_clean (copy_body path body) (remove path)
