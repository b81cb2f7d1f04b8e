-- ===== src/Backend/Toy.antt =====
-- A host that keeps one snapshot, for the tests, and an engine on it.
use mathlib.Core.Path.{subst}
use mathlib.Core.Option.{some-injective}
use pterodactyl_proxmox_back.Prelude.{
  ℤ, pos, negsuc, ℕ, zero, suc, ◌*◌, ◌%◌, ◌≡◌, refl, sym, ap, ◌∙◌, inl, inr, true, Option, none,
  some, List, [], ◌∷◌, if◌then◌else◌, Bool-cases, Bytes, codes,
}
use pterodactyl_proxmox_back.Store.Multipart.Tests.{json, json_part}
use pterodactyl_proxmox_back.Prelude.Int.{pos_part, neg_part}
use pterodactyl_proxmox_back.Disk.{Disk}
use pterodactyl_proxmox_back.Store.{Json}
use pterodactyl_proxmox_back.Store.Objects.{ObjectMapping}
use pterodactyl_proxmox_back.Strings.{eq_bytes, has_prefix, has_suffix}
use pterodactyl_proxmox_back.Pbs.{RunError, exit_error, opened}
use pterodactyl_proxmox_back.Pbs.Client.{
  Output, snapshot_id, backup_args, forget_args, notes_args, run,
}
use pterodactyl_proxmox_back.Backend.{Host, Engine}
use pterodactyl_proxmox_back.Samples.{total, toy_sha, toy_bolt}
use pterodactyl_proxmox_back.Strings.Equal.{eq_bytes_refl}
use pterodactyl_proxmox_back.Pbs.Time.{second, unix}
use pterodactyl_proxmox_back.Backend.Laws.{Snap, one_run, IsPbs}
use pterodactyl_proxmox_back.Prelude.Result.{ok}
use pterodactyl_proxmox_back.IdMap.{strip_known_extensions, group_id_from_key, sanitize_namespace}
use pterodactyl_proxmox_back.Backend.Objects.{new_mapping}
use pterodactyl_proxmox_back.Backend.Commit.{Storable}

-- the arguments of the one backup that the server has taken
abbrev pub Kept : Type 0
Kept = Disk × Option (List Bytes)

abbrev pub silent : Output
silent = record { stdout = []; stderr = [] }

abbrev pub full : Output
full = record { stdout = []; stderr = codes "no space left" }

abbrev pub take_backup : List Bytes → Kept → (Output × Option RunError) × Kept
take_backup args (d, none) = ((silent, none), (d, some args))
take_backup args (d, some old) = ((full, some (exit_error (pos 1))), (d, some old))

-- a backup is taken once, and anything else does nothing
abbrev pub execute : List Bytes → Kept → (Output × Option RunError) × Kept
execute [] w = ((silent, none), w)
execute (c ∷ args) w =
    if eq_bytes c (codes "backup") then take_backup (c ∷ args) w else ((silent, none), w)

abbrev pub one_backup : Host
one_backup = record {
  Server = Option (List Bytes);
  execute = λ bin args environ w. execute args w;
  stream = λ bin args environ w. (opened (codes "abc"), w);
  wait = λ delay w. (true, w);
}

abbrev pub encode_ℤ : ℤ → List ℕ
encode_ℤ z = pos_part z ∷ neg_part z ∷ []

abbrev pub decode_ℤ : ℕ → ℕ → ℤ
decode_ℤ n zero = pos n
decode_ℤ n (suc m) = negsuc m

pub decode-encode : (z : ℤ) → decode_ℤ (pos_part z) (neg_part z) ≡ z
decode-encode (pos n) = refl
decode-encode (negsuc n) = refl

-- the one bucket and key
abbrev pub mapping : ℤ → ℤ → Bytes → ℕ → ObjectMapping
mapping used size etag updated = record {
  bucket = codes "bk";
  key = codes "k";
  namespace = codes "bk";
  pbs_backup_type = codes "host";
  pbs_backup_id = codes "k";
  pbs_backup_time = used;
  size = size;
  etag = etag;
  updated_at = updated;
}

-- a JSON that writes what is different between mappings of one key
abbrev pub read_mapping : List ℕ → Option ObjectMapping
read_mapping (a ∷ b ∷ c ∷ d ∷ t ∷ etag) = some (mapping (decode_ℤ a b) (decode_ℤ c d) etag t)
read_mapping _ = none

abbrev pub object_json : Json ObjectMapping
object_json = record {
  marshal = λ m. some (
      pos_part m.pbs_backup_time
      ∷ neg_part m.pbs_backup_time
      ∷ pos_part m.size
      ∷ neg_part m.size
      ∷ m.updated_at
      ∷ m.etag);
  unmarshal = read_mapping;
}

abbrev pub engine : Engine
engine = record {
  bolt = toy_bolt;
  object_json = object_json;
  upload_json = json;
  part_json = json_part;
  sha = toy_sha;
  md5_sum = λ m. total m % 256 ∷ [];
  host = one_backup;
  environ = [];
  clock = λ n. n * second;
  random = λ n. codes "u";
  client = record { repository = codes "p"; password = []; fingerprint = []; bin_path = [] };
  backup_type = codes "host";
  root = codes "r";
}

abbrev pub Snapshot : Snap → Kept → Type 0
Snapshot x (d, none) = ⊥
Snapshot (namespace, id) (d, some args) =
    (path : Bytes) × (backup_type : Bytes) × (backup_id : Bytes) × (t : ℕ) × (args
      ≡ backup_args path backup_type backup_id t namespace)
    × (id ≡ snapshot_id backup_type backup_id t)

pub execute-backup :
    (path backup_type backup_id : Bytes) (t : ℕ) (namespace : Bytes) (w : Kept)
    → execute (backup_args path backup_type backup_id t namespace) w
      ≡ take_backup (backup_args path backup_type backup_id t namespace) w
unfolding backup_args
execute-backup path backup_type backup_id t namespace w =
    elim (Bool-cases (eq_bytes namespace [])) [
      | inl e ↦ rw e (rw (eq_bytes_refl (codes "backup")) refl)
      | inr e ↦ rw e (rw (eq_bytes_refl (codes "backup")) refl)
    ]

pub execute-notes :
    (backup_type backup_id : Bytes) (t : ℕ) (namespace notes : Bytes) (w : Kept)
    → execute (notes_args backup_type backup_id t namespace notes) w ≡ ((silent, none), w)
unfolding notes_args eq_bytes
execute-notes backup_type backup_id t namespace notes w =
    elim (Bool-cases (eq_bytes namespace [])) [ inl e ↦ rw e refl | inr e ↦ rw e refl ]

pub execute-forget :
    (backup_type backup_id : Bytes) (t : ℕ) (namespace : Bytes) (w : Kept)
    → execute (forget_args backup_type backup_id t namespace) w ≡ ((silent, none), w)
unfolding forget_args eq_bytes
execute-forget backup_type backup_id t namespace w = elim (Bool-cases (eq_bytes namespace [])) [
  | inl e ↦ rw e refl
  | inr e ↦ rw e refl
]

-- one run of a command that does nothing keeps everything
pub kept_of_nothing :
    (x : Snap) (args : List Bytes) (w : Kept)
    → execute args w ≡ ((silent, none), w)
    → Snapshot x w
    → Snapshot x ((one_run engine Snapshot args w).1)
unfolding run
kept_of_nothing x args w h p = rw h p

pub made :
    (path backup_type backup_id : Bytes) (t : ℕ) (namespace : Bytes) (w u : Kept) (out : Output)
    → one_run engine Snapshot (backup_args path backup_type backup_id t namespace) w ≡ (ok out, u)
    → Snapshot (namespace, snapshot_id backup_type backup_id t) u
      × ¬ Snapshot (namespace, snapshot_id backup_type backup_id t) w
unfolding run
made path backup_type backup_id t namespace (d, none) u out h =
    let done = rw (execute-backup path backup_type backup_id t namespace (d, none)) at h in
    (
      subst (Snapshot (namespace, snapshot_id backup_type backup_id t)) (ap (λ r. r.1) done)
          (path, backup_type, backup_id, t, refl, refl),
      λ e. e,
    )
made path backup_type backup_id t namespace (d, some old) u out h =
    cc (
      ap (λ r. r.0) (rw (execute-backup path backup_type backup_id t namespace (d, some old)) at h))

pub backup_kept :
    (path backup_type backup_id : Bytes) (t : ℕ) (namespace : Bytes) (x : Snap) (w : Kept)
    → Snapshot x w
    → Snapshot x
        ((one_run engine Snapshot (backup_args path backup_type backup_id t namespace) w).1)
unfolding run
backup_kept path backup_type backup_id t namespace x (d, none) p = elim p [ ]
backup_kept path backup_type backup_id t namespace x (d, some old) p =
    rw (execute-backup path backup_type backup_id t namespace (d, some old)) p

pub engine-IsPbs : IsPbs engine Snapshot
engine-IsPbs = record {
  made_by_backup = λ path backup_type backup_id t namespace w u out h.
      (made path backup_type backup_id t namespace w u out h).0;
  free_before_backup = λ path backup_type backup_id t namespace w u out h.
      (made path backup_type backup_id t namespace w u out h).1;
  backup_keeps = λ path backup_type backup_id t namespace x w p.
      backup_kept path backup_type backup_id t namespace x w p;
  notes_keep = λ backup_type backup_id t namespace notes x w p.
      kept_of_nothing x (notes_args backup_type backup_id t namespace notes) w
        (execute-notes backup_type backup_id t namespace notes w) p;
  forget_keeps = λ backup_type backup_id t namespace x w n p.
      kept_of_nothing x (forget_args backup_type backup_id t namespace) w
        (execute-forget backup_type backup_id t namespace w) p;
  wait_keeps = λ x delay w p. p;
  disk_apart = λ x d e v p. same_server x d e v p;
}
  where
    same_server :
        (x : Snap) (d e : Disk) (v : Option (List Bytes)) → Snapshot x (d, v) → Snapshot x (e, v)
    same_server x d e none p = p
    same_server x d e (some args) p = p

pub engine-AllStorable :
    (size : ℤ) (etag : Bytes) (used updated : ℕ)
    → Storable engine (new_mapping engine (codes "bk") (codes "k") size etag used updated)
unfolding group_id_from_key strip_known_extensions has_suffix has_prefix sanitize_namespace eq_bytes
engine-AllStorable size etag used updated v e = written
  where
    written :
        engine.object_json.unmarshal v
        ≡ some (new_mapping engine (codes "bk") (codes "k") size etag used updated)
    written =
        ap engine.object_json.unmarshal (sym (some-injective _ v e))
        ∙ ap (λ t. some (mapping t (decode_ℤ (pos_part size) (neg_part size)) etag updated))
            (decode-encode (unix used))
        ∙ ap (λ z. some (mapping (unix used) z etag updated)) (decode-encode size)
