-- ===== src/Backend/Tests.antt =====
-- An engine on a host that keeps one snapshot, and the theorems at it.
use pterodactyl_proxmox_back.Prelude.{
  pos, ℕ, ◌≡◌, refl, ◌≢◌, ◌⊎◌, inl, false, ◌&&◌, none, List, [], ◌∷◌, arith, if◌then◌else◌, Bytes,
  codes, length,
}
use pterodactyl_proxmox_back.Backend.Reads.{dispatch_keeps_db}
use pterodactyl_proxmox_back.Backend.Interface.{engine_backend}
use pterodactyl_proxmox_back.S3Api.Route.{dispatch}
use pterodactyl_proxmox_back.Http.{Request}
use pterodactyl_proxmox_back.Strings.Hex.{hex}
use pterodactyl_proxmox_back.Bolt.Scan.{seek}
use pterodactyl_proxmox_back.Store.Keys.{object_map_key}
use pterodactyl_proxmox_back.Disk.{
  file, join_path, add_dir, mkdir_all, create, open_file, stat, append, close, remove, rename,
  remove_all, pick, create_temp,
}
use pterodactyl_proxmox_back.Store.{not_found, commit_fails, update, put_in}
use pterodactyl_proxmox_back.Store.Objects.{
  put_tx, delete_tx, put_object_mapping, get_object_mapping, delete_object_mapping,
}
use pterodactyl_proxmox_back.Strings.{eq_bytes, lt_bytes, has_prefix, cut}
use pterodactyl_proxmox_back.Pbs.Client.{
  backup_args, forget_args, notes_args, run, next_try, retry, run_with_retry, next_time,
  backup_from, backup, forget, update_notes,
}
use pterodactyl_proxmox_back.Backend.{
  State, now, on_pbs, on_disk, on_db, from_db, find_mapping, cleanup_upload,
}
use pterodactyl_proxmox_back.Samples.{toy_bolt, empty_db}
use pterodactyl_proxmox_back.Prelude.Result.{Result, ok, err}
use pterodactyl_proxmox_back.IdMap.{sanitize_namespace}
use pterodactyl_proxmox_back.Backend.Objects.{
  forget_mapping, forget_old, back_up, point_at, commit_object_locked, put_object, head_object,
  delete_object,
}
use pterodactyl_proxmox_back.Backend.Commit.{mapping_at, Sound}
use pterodactyl_proxmox_back.Bolt.{key_fits}
use pterodactyl_proxmox_back.Bolt.Lists.{lookup, insert_pair, remove_pair, IsSorted}
use pterodactyl_proxmox_back.Stage.{
  upload_dir, remove_upload_dir, final_path, partial_path, copy_part, copy_parts, copy_body,
  write_to_temp, concat_new, concat_parts,
}
use pterodactyl_proxmox_back.S3Api.{ObjectInfo, Part, BackendError, other_failure, Stream}
use pterodactyl_proxmox_back.Strings.Split.{NoByte}
use pterodactyl_proxmox_back.Backend.Invariant.{put_object-Sound, delete_object-Sound}
use pterodactyl_proxmox_back.Backend.Put.{head_object-put_object, put_object_failed}
use pterodactyl_proxmox_back.Backend.Toy.{engine, Snapshot, engine-IsPbs, engine-AllStorable}
use pterodactyl_proxmox_back.Store.Multipart.Tests.{upload, json, part, json_part}
use pterodactyl_proxmox_back.Store.Multipart.{
  delete_upload_tx, delete_upload, get_upload, read_parts, list_parts,
}
use pterodactyl_proxmox_back.Backend.Uploads.{stored_part, listed_paths, complete_multipart_upload}
use pterodactyl_proxmox_back.Backend.Complete.{Accepted, complete_multipart_upload_checked}
use pterodactyl_proxmox_back.Strings.Equal.{ne_of_eq_bytes}
use pterodactyl_proxmox_back.Stage.Copy.{Contents, Apart, concat}
use pterodactyl_proxmox_back.Backend.Found.{Committed}
use pterodactyl_proxmox_back.Backend.Assembled.{complete_multipart_upload-Committed}

abbrev start : State engine
start = record {
  db = empty_db [];
  world = (record { files = []; dirs = []; faults = []; drawn = codes "1" ∷ codes "2" ∷ [] }, none);
  ticks = 63867219200;
  draws = 0;
}

start-Sound : Sound engine Snapshot start
unfolding get_object_mapping lookup
start-Sound = ((λ b k m hb h. cc h), (λ b k c j m n hb hc h i e. cc h))

-- `bk` has no NUL byte
bk-NoByte : NoByte 0 (codes "bk")
bk-NoByte = ((λ e. cc e), ((λ e. cc e), tt))

abbrev body : Stream
body = record { content = codes "abc"; is_broken = false }

abbrev put_abc : Result BackendError ObjectInfo × State engine
put_abc = put_object engine (codes "bk") (codes "k") body start

put_object-Sound_example : Sound engine Snapshot put_abc.1
put_object-Sound_example =
    put_object-Sound engine Snapshot engine-IsPbs (codes "bk") (codes "k") body start
      (engine-AllStorable (pos 3) (hex (engine.md5_sum (codes "abc")))) bk-NoByte start-Sound

abbrev answer : Result BackendError ObjectInfo → ObjectInfo
answer (ok info) = info
answer (err e) = record { key = []; size = pos 0; etag = []; last_modified = 0 }

abbrev put_info : ObjectInfo
put_info = answer put_abc.0

put_run : put_abc ≡ (ok put_info, put_abc.1)
unfolding put_object commit_object_locked back_up point_at now on_pbs on_disk on_db find_mapping
    forget_old write_to_temp mkdir_all add_dir create_temp pick append copy_body remove backup
    backup_from next_time run_with_retry retry next_try run update_notes notes_args backup_args
    get_object_mapping put_object_mapping put_tx put_in key_fits update object_map_key lookup
    insert_pair remove_pair eq_bytes lt_bytes cut join_path sanitize_namespace
put_run = refl

head_object-put_object_example :
    (false ≡ false)
    × (put_info.size ≡ pos 3)
    × (put_info.etag ≡ hex (engine.md5_sum (codes "abc")))
    × ((c j : Bytes)
        → NoByte 0 c
        → (head_object engine c j put_abc.1).0 ≡ (
            if eq_bytes (codes "bk") c && eq_bytes (codes "k") j
            then ok put_info
            else (head_object engine c j start).0))
head_object-put_object_example =
    head_object-put_object engine (codes "bk") (codes "k") body start
      (engine-AllStorable (pos 3) (hex (engine.md5_sum (codes "abc")))) bk-NoByte put_run

-- the write of the mapping is to fail
abbrev full_disk : State engine
full_disk = record start { db = empty_db (commit_fails ∷ []) }

abbrev failed_put : Result BackendError ObjectInfo × State engine
failed_put = put_object engine (codes "bk") (codes "k") body full_disk

failed_put_run : failed_put ≡ (err other_failure, failed_put.1)
unfolding put_object commit_object_locked back_up point_at now on_pbs on_disk on_db find_mapping
    forget_old write_to_temp mkdir_all add_dir create_temp pick append copy_body remove backup
    backup_from next_time run_with_retry retry next_try run update_notes notes_args backup_args
    get_object_mapping put_object_mapping put_tx put_in key_fits update object_map_key lookup
    insert_pair remove_pair eq_bytes lt_bytes cut join_path sanitize_namespace
failed_put_run = refl

put_object_failed_example :
    mapping_at engine (codes "bk") (codes "k") failed_put.1
    ≡ mapping_at engine (codes "bk") (codes "k") full_disk
put_object_failed_example =
    put_object_failed engine (codes "bk") (codes "k") body full_disk failed_put_run (codes "bk")
      (codes "k")

abbrev deleted : Result BackendError (Unit {0}) × State engine
deleted = delete_object engine (codes "bk") (codes "k") put_abc.1

deleted_run : deleted ≡ (ok tt, deleted.1)
unfolding delete_object forget_mapping forget forget_args delete_object_mapping delete_tx put_object
    commit_object_locked back_up point_at now on_pbs on_disk on_db find_mapping forget_old
    write_to_temp mkdir_all add_dir create_temp pick append copy_body remove backup backup_from
    next_time run_with_retry retry next_try run update_notes notes_args backup_args
    get_object_mapping put_object_mapping put_tx put_in key_fits update object_map_key lookup
    insert_pair remove_pair eq_bytes lt_bytes cut join_path sanitize_namespace
deleted_run = refl

delete_object-Sound_example :
    ((c j : Bytes)
      → NoByte 0 c
      → mapping_at engine c j deleted.1 ≡ (
          if eq_bytes (codes "bk") c && eq_bytes (codes "k") j
          then err not_found
          else mapping_at engine c j put_abc.1))
    × Sound engine Snapshot deleted.1
delete_object-Sound_example =
    delete_object-Sound engine Snapshot engine-IsPbs (codes "bk") (codes "k") put_abc.1 bk-NoByte
      put_object-Sound_example deleted_run

-- an upload with one part
one_upload : IsSorted ((codes "u", 5 ∷ codes "u") ∷ [])
one_upload = (tt, tt)

one_part : IsSorted ((codes "u/00000001", 1 ∷ []) ∷ [])
one_part = (tt, tt)

abbrev uploading : State engine
uploading = record start {
  db = record (empty_db []) {
    multipart_uploads = ((codes "u", 5 ∷ codes "u") ∷ [], one_upload);
    multipart_parts = ((codes "u/00000001", 1 ∷ []) ∷ [], one_part);
  };
  world =
      (record { files = (codes "p", codes "xyz") ∷ []; dirs = []; faults = []; drawn = [] }, none);
}

abbrev asked : ℕ → List Part
asked n = record { part_number = pos n; etag = codes "e"; size = pos 0; last_modified = 0 } ∷ []

upload_there : get_upload toy_bolt json (codes "u") uploading.db ≡ ok (upload (codes "u") 5)
unfolding get_upload lookup eq_bytes
upload_there = refl

part_there : list_parts toy_bolt json_part (codes "u") uploading.db ≡ ok (part 1 ∷ [])
unfolding list_parts read_parts seek has_prefix lt_bytes
part_there = refl

part-Accepted : Accepted (part 1 ∷ []) (pos 0) (asked 1) (codes "p" ∷ [])
unfolding stored_part
part-Accepted = (omega arith, (part 1, refl, refl, refl), tt)

complete_multipart_upload_checked_example :
    ((((asked 2) ≡ []) ⊎ ¬ ((paths : List Bytes) × Accepted (part 1 ∷ []) (pos 0) (asked 2) paths))
      × (complete_multipart_upload engine (codes "bk") (codes "k") (codes "u") (asked 2) uploading
          ≡ (err other_failure, uploading)))
    ⊎ ((asked 2 ≢ []) × ((paths : List Bytes) × Accepted (part 1 ∷ []) (pos 0) (asked 2) paths))
complete_multipart_upload_checked_example =
    complete_multipart_upload_checked engine (codes "bk") (codes "k") (codes "u") (asked 2)
      uploading (upload (codes "u") 5) (part 1 ∷ []) upload_there part_there

abbrev completed : Result BackendError ObjectInfo × State engine
completed =
    complete_multipart_upload engine (codes "bk") (codes "k") (codes "u") (asked 1) uploading

abbrev completed_info : ObjectInfo
completed_info = answer completed.0

completed_run : completed ≡ (ok completed_info, completed.1)
unfolding complete_multipart_upload listed_paths stored_part from_db list_parts read_parts seek
    get_upload cleanup_upload remove_upload_dir delete_upload delete_upload_tx concat_parts
    concat_new copy_parts copy_part stat create open_file close rename remove_all upload_dir
    final_path put_object commit_object_locked back_up point_at now on_pbs on_disk on_db
    find_mapping forget_old mkdir_all add_dir append remove backup backup_from next_time
    run_with_retry retry next_try run update_notes notes_args backup_args get_object_mapping
    put_object_mapping put_tx put_in key_fits update object_map_key lookup insert_pair remove_pair
    eq_bytes lt_bytes has_prefix join_path sanitize_namespace
completed_run = refl

nothing_final : file (final_path (codes "r") (codes "u")) uploading.world.0 ≡ none
unfolding lookup eq_bytes join_path upload_dir final_path
nothing_final = refl

part-Apart : Apart (partial_path (codes "r") (codes "u")) (codes "p" ∷ [])
unfolding join_path upload_dir final_path eq_bytes
part-Apart = (ne_of_eq_bytes (partial_path (codes "r") (codes "u")) (codes "p") refl, tt)

part_text : Contents uploading.world.0 (codes "p" ∷ []) (codes "xyz" ∷ [])
unfolding lookup eq_bytes
part_text = (refl, tt)

complete_multipart_upload-Committed_example :
    Committed engine
      (codes "bk")
      (codes "k")
      (pos 3)
      (hex (engine.md5_sum (codes "xyz")))
      completed_info
      uploading
      completed.1
unfolding concat
complete_multipart_upload-Committed_example =
    complete_multipart_upload-Committed engine (codes "bk") (codes "k") (codes "u") (asked 1)
      uploading (upload (codes "u") 5) (part 1 ∷ []) (codes "p" ∷ []) (codes "xyz" ∷ [])
      upload_there part_there part-Accepted nothing_final part-Apart (tt, tt) part_text
      (engine-AllStorable (pos (length (concat (codes "xyz" ∷ []))))
        (hex (engine.md5_sum (concat (codes "xyz" ∷ [])))))
      bk-NoByte completed_run

-- a ranged GET of the object that was put, which restores into a file
abbrev ranged : Request
ranged = record {
  method = codes "GET";
  path = codes "/bk/k";
  host = codes "h";
  url_host = [];
  header = (codes "Range", codes "bytes=1-1") ∷ [];
  query = [];
}

dispatch_keeps_db_example :
    ((dispatch
      (engine_backend engine)
      (λ text. none)
      (record { path = codes "/bk/k"; request_id = codes "q" })
      ranged
      body
      put_abc.1).1
    ).db
    ≡ put_abc.1.db
dispatch_keeps_db_example =
    dispatch_keeps_db engine (λ text. none)
      (record { path = codes "/bk/k"; request_id = codes "q" }) ranged body put_abc.1 (inl refl)
