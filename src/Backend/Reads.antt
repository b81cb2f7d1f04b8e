-- ===== src/Backend/Reads.antt =====
-- internal/backend/backend.go under the handlers: GET and HEAD leave the database alone.
use pterodactyl_proxmox_back.Prelude.{
  ℤ, pos, ◌≡◌, refl, ◌∙◌, ◌⊎◌, Bool, true, false, Option, none, some, [], map, if◌then◌else◌, Bytes,
  codes,
}
use pterodactyl_proxmox_back.Prelude.Steps.{◌>>=◌, return, fail, attempt, continued_end}
use pterodactyl_proxmox_back.Prelude.Result.{Result}
use pterodactyl_proxmox_back.Store.{StoreError, Db}
use pterodactyl_proxmox_back.Disk.{Disk, Action, open_file, remove}
use pterodactyl_proxmox_back.Pbs.{PbsError}
use pterodactyl_proxmox_back.S3Api.{RangeSpec, BackendError, other_failure, Stream, Context}
use pterodactyl_proxmox_back.Backend.{
  cli_of, Engine, State, Step, on_pbs, on_disk, map_not_found, unmapped, from_db,
}
use pterodactyl_proxmox_back.Backend.Objects.{
  info_of_mapping, sliced, read_range, content_at, get_object, head_object,
}
use pterodactyl_proxmox_back.Prelude.Int.{pos_part, ◌*ℤ◌, ltb_ℤ}
use pterodactyl_proxmox_back.Store.Objects.{ObjectMapping, get_object_mapping, list_objects}
use pterodactyl_proxmox_back.Store.Multipart.{list_parts}
use pterodactyl_proxmox_back.Pbs.Client.{restore}
use pterodactyl_proxmox_back.Pbs.Time.{from_unix}
use pterodactyl_proxmox_back.S3Api.Uploads.{ParseXml}
use pterodactyl_proxmox_back.S3Api.Route.{dispatch}
use pterodactyl_proxmox_back.S3Api.Laws.{ReadsOnly, dispatch_reads}
use pterodactyl_proxmox_back.Http.{Request}
use pterodactyl_proxmox_back.Stage.{temp_file_path}
use pterodactyl_proxmox_back.Backend.Uploads.{part_of, get_upload_step, list_upload_parts}
use pterodactyl_proxmox_back.Backend.Listing.{group, list_grouped}
use pterodactyl_proxmox_back.Backend.Interface.{engine_backend}

module _ (g : Engine) where
  KeepsDb {ℓ} : {A : Type ℓ} → Step g A → Type 0
  KeepsDb m = (s : State g) → ((m s).1).db ≡ s.db

  keeps-bind :
      {A B : Type 0} (m : Step g A) (f : A → Step g B)
      → KeepsDb m
      → ((a : A) → KeepsDb (f a))
      → KeepsDb (m >>= f)
  unfolding KeepsDb
  keeps-bind m f h k s =
      continued_end (λ t. State.db t ≡ s.db) (m s) f (λ e p. h s) (λ a p. k a ((m s).1) ∙ h s)

  keeps-return : {A : Type 0} (a : A) → KeepsDb (return a)
  unfolding KeepsDb
  keeps-return a s = refl

  keeps-on_pbs :
      {A : Type 0} (m : Disk × g.host.Server → Result PbsError A × (Disk × g.host.Server))
      → KeepsDb (on_pbs g m)
  unfolding KeepsDb on_pbs
  keeps-on_pbs m s = refl

  keeps-on_disk : {A : Type 0} (m : Action A) → KeepsDb (on_disk g m)
  unfolding KeepsDb on_disk
  keeps-on_disk m s = refl

  keeps-from_db :
      {A : Type 0} (f : StoreError → BackendError) (m : Db g.bolt → Result StoreError A)
      → KeepsDb (from_db g f m)
  unfolding KeepsDb from_db
  keeps-from_db f m s = refl

  keeps-attempt : {A : Type 0} (m : Step g A) → KeepsDb m → KeepsDb (attempt m)
  unfolding KeepsDb
  keeps-attempt m h s = h s

  keeps-slice :
      (b : Bool) (content : Bytes) → KeepsDb (if b then fail other_failure else return content)
  unfolding KeepsDb
  keeps-slice true content s = refl
  keeps-slice false content s = refl

  keeps-read_range : (r : RangeSpec) (path : Bytes) → KeepsDb (read_range g r path)
  unfolding read_range
  keeps-read_range r path =
      keeps-bind (on_disk g (open_file path)) _ (keeps-on_disk (open_file path)) λ content.
        keeps-bind (attempt (on_disk g (remove path))) _
          (keeps-attempt (on_disk g (remove path)) (keeps-on_disk (remove path)))
          λ w. keeps-slice (ltb_ℤ r.start (pos 0)) (sliced g r content)

  keeps-content_at : (m : ObjectMapping) (range : Option RangeSpec) → KeepsDb (content_at g m range)
  keeps-content_at m none = keeps-on_pbs _
  keeps-content_at m (some r) =
      keeps-bind (on_disk g (temp_file_path g.root (codes "gets") (codes "get-*.tmp"))) _
        (keeps-on_disk _)
        λ path.
          keeps-bind
            (on_pbs g (
              restore (cli_of g.host) g.environ g.client m.pbs_backup_type m.pbs_backup_id
                (from_unix m.pbs_backup_time) m.namespace path))
            _ (keeps-on_pbs _) λ u. keeps-read_range r path

  keeps-get_object :
      (bucket key : Bytes) (range : Option RangeSpec) → KeepsDb (get_object g bucket key range)
  unfolding get_object
  keeps-get_object bucket key range =
      keeps-bind (from_db g (map_not_found g) (get_object_mapping g.bolt g.object_json bucket key))
        _ (keeps-from_db _ _)
        λ m.
          keeps-bind (content_at g m range) _ (keeps-content_at m range)
            λ content. keeps-return (content, info_of_mapping key m)

  keeps-head_object : (bucket key : Bytes) → KeepsDb (head_object g bucket key)
  unfolding head_object
  keeps-head_object bucket key =
      keeps-bind (from_db g (map_not_found g) (get_object_mapping g.bolt g.object_json bucket key))
        _ (keeps-from_db _ _) λ m. keeps-return (info_of_mapping key m)

  keeps-list_grouped :
      (bucket prefix delimiter start : Bytes) (n : ℤ)
      → KeepsDb (list_grouped g bucket prefix delimiter start n)
  unfolding list_grouped
  keeps-list_grouped bucket prefix delimiter start n =
      keeps-bind
        (from_db g (unmapped g)
          (list_objects g.bolt g.object_json bucket prefix start (pos_part (n *ℤ pos 4))))
        _ (keeps-from_db _ _)
        λ (ms, truncated). keeps-return (group prefix delimiter n truncated [] 0 ms)

  keeps-list_upload_parts :
      (bucket key upload_id : Bytes) → KeepsDb (list_upload_parts g bucket key upload_id)
  unfolding list_upload_parts
  keeps-list_upload_parts bucket key upload_id =
      keeps-bind (get_upload_step g upload_id) _ (keeps-from_db _ _) λ u.
        keeps-bind (from_db g (unmapped g) (list_parts g.bolt g.part_json upload_id)) _
          (keeps-from_db _ _) λ stored. keeps-return (map part_of stored)

  engine-ReadsOnly : ReadsOnly (engine_backend g) (λ s. State.db s)
  unfolding KeepsDb
  engine-ReadsOnly = record {
    get_object_reads = λ bucket key r s. keeps-get_object bucket key r s;
    head_object_reads = λ bucket key s. keeps-head_object bucket key s;
    list_objects_reads =
        λ bucket prefix delimiter start n s. keeps-list_grouped bucket prefix delimiter start n s;
    list_parts_reads = λ bucket key upload_id s. keeps-list_upload_parts bucket key upload_id s;
  }

  -- A request with the method GET or HEAD, dispatched to the engine, leaves the database as it was:
  -- the mappings, the uploads, their parts, and what is to befall later transactions. (A ranged GET
  -- restores into a file of the scratch disk.)
  pub dispatch_keeps_db :
      (parse : ParseXml) (ctx : Context) (r : Request) (body : Stream) (s : State g)
      → (r.method ≡ codes "GET") ⊎ (r.method ≡ codes "HEAD")
      → ((dispatch (engine_backend g) parse ctx r body s).1).db ≡ s.db
  dispatch_keeps_db parse ctx r body s h =
      dispatch_reads (engine_backend g) (λ t. State.db t) parse ctx r body s engine-ReadsOnly h
