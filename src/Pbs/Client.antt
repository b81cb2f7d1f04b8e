-- ===== src/Pbs/Client.antt =====
-- internal/pbs/client.go: the commands, run again after a transient failure, and at a later time
-- after a collision.
use pterodactyl_proxmox_back.Prelude.{
  ℕ, zero, suc, ◌+◌, ◌*◌, Bool, true, false, Option, none, some, List, [], ◌∷◌, ◌++◌, ltb,
  if◌then◌else◌, Bytes, codes,
}
use pterodactyl_proxmox_back.Prelude.Result.{Result, ok, err}
use pterodactyl_proxmox_back.Pbs.{
  PbsError, exhausted, RunError, StreamStart, classify_error, is_backup_time_collision,
  is_not_found, is_transient,
}
use pterodactyl_proxmox_back.Pbs.Time.{second, unix, format_time}
use pterodactyl_proxmox_back.Strings.{eq_bytes}
use pterodactyl_proxmox_back.Strings.Decimal.{itoa}

pub record Output : Type 0 where
  pub stdout : Bytes
  pub stderr : Bytes

-- What a command acts on, the server and the disk, with the context of the call: a command that
-- is run when the context is done fails, and so does one that the deadline of the configured
-- timeout meets.
pub record Cli : Type 1 where
  pub World : Type 0
  -- a program with its arguments and environment
  pub execute : Bytes → List Bytes → List Bytes → World → (Output × Option RunError) × World
  -- the same with its output read from a pipe
  pub stream : Bytes → List Bytes → List Bytes → World → StreamStart × World
  -- whether a time passes before the context is done
  pub wait : ℕ → World → Bool × World

pub record Client : Type 0 where
  pub repository : Bytes
  pub password : Bytes
  pub fingerprint : Bytes
  pub bin_path : Bytes

abbrev pub archive_name : Bytes
archive_name = codes "data.img"

-- MaxTransientRetries - 1: how many tries may follow the first
abbrev pub more_tries : ℕ
more_tries = 2

abbrev pub base_delay : ℕ
base_delay = 250000000

abbrev pub max_delay : ℕ
max_delay = 750000000

abbrev pub max_collision_retries : ℕ
max_collision_retries = 5

unfoldable pub program : Client → Bytes
program c = if eq_bytes c.bin_path [] then codes "proxmox-backup-client" else c.bin_path

unfoldable pub snapshot_id : Bytes → Bytes → ℕ → Bytes
snapshot_id backup_type backup_id backup_time =
    backup_type ++ (b'/' ∷ backup_id) ++ (b'/' ∷ format_time backup_time)

unfoldable pub env_if_set : Bytes → Bytes → List Bytes
env_if_set key value = if eq_bytes value [] then [] else (key ++ (b'=' ∷ value)) ∷ []

unfoldable pub env : List Bytes → Client → List Bytes
env environ c =
    environ
    ++ env_if_set (codes "PBS_REPOSITORY") c.repository
    ++ env_if_set (codes "PBS_PASSWORD") c.password
    ++ env_if_set (codes "PBS_FINGERPRINT") c.fingerprint

-- `--ns` when there is a namespace
abbrev pub with_namespace : Bytes → List Bytes → List Bytes
with_namespace namespace args =
    if eq_bytes namespace [] then args else args ++ (codes "--ns" ∷ namespace ∷ [])

unfoldable pub backup_args : Bytes → Bytes → Bytes → ℕ → Bytes → List Bytes
backup_args file_path backup_type backup_id t namespace = with_namespace namespace (
    codes "backup"
    ∷ (archive_name ++ (b':' ∷ file_path))
    ∷ codes "--backup-type"
    ∷ backup_type
    ∷ codes "--backup-id"
    ∷ backup_id
    ∷ codes "--backup-time"
    ∷ itoa (unix t)
    ∷ codes "--crypt-mode"
    ∷ codes "none"
    ∷ [])

unfoldable pub forget_args : Bytes → Bytes → ℕ → Bytes → List Bytes
forget_args backup_type backup_id t namespace =
    with_namespace namespace (codes "forget" ∷ snapshot_id backup_type backup_id t ∷ [])

unfoldable pub restore_args : Bytes → Bytes → ℕ → Bytes → Bytes → List Bytes
restore_args backup_type backup_id t namespace out_file = with_namespace namespace (
    codes "restore"
    ∷ snapshot_id backup_type backup_id t
    ∷ archive_name
    ∷ out_file
    ∷ codes "--crypt-mode"
    ∷ codes "none"
    ∷ [])

unfoldable pub notes_args : Bytes → Bytes → ℕ → Bytes → Bytes → List Bytes
notes_args backup_type backup_id t namespace notes = with_namespace namespace (
    codes "snapshot"
    ∷ codes "notes"
    ∷ codes "update"
    ∷ snapshot_id backup_type backup_id t
    ∷ notes
    ∷ [])

module _ (cli : Cli) (environ : List Bytes) (c : Client) where
  abbrev pub Answer : Type 0
  Answer = Result PbsError Output × cli.World

  abbrev pub classified : List Bytes → (Output × Option RunError) × cli.World → Answer
  classified args ((out, none), w) = (ok out, w)
  classified args ((out, some e), w) = (err (classify_error args e out.stderr), w)

  unfoldable pub run : List Bytes → cli.World → Answer
  run args w = classified args (cli.execute (program c) args (env environ c) w)

  abbrev pub capped : ℕ → ℕ
  capped delay = if ltb max_delay delay then max_delay else delay

  unfoldable pub waited : (cli.World → Answer) → PbsError → Bool × cli.World → Answer
  waited again e (true, w) = again w
  waited again e (false, w) = (err e, w)

  unfoldable pub next_try : (cli.World → Answer) → ℕ → Answer → Answer
  unfolding waited
  next_try again delay (ok out, w) = (ok out, w)
  next_try again delay (err e, w) = elim (is_transient e) [
    | true ↦ waited again e (cli.wait delay w)
    | false ↦ (err e, w)
  ]

  -- the loop of runWithRetry: `left` tries may follow this one
  unfoldable pub retry : ℕ → ℕ → List Bytes → cli.World → Answer
  unfolding next_try
  retry zero delay args w = run args w
  retry (suc left) delay args w = next_try (retry left (capped (delay * 3)) args) delay (run args w)

  unfoldable pub run_with_retry : List Bytes → cli.World → Answer
  run_with_retry args w = retry more_tries base_delay args w

  abbrev pub BackupAnswer : Type 0
  BackupAnswer = Result PbsError ℕ × cli.World

  unfoldable pub next_time : (cli.World → BackupAnswer) → ℕ → Answer → BackupAnswer
  next_time again t (ok out, w) = (ok t, w)
  next_time again t (err e, w) = elim (is_backup_time_collision e) [
    | true ↦ again w
    | false ↦ (err e, w)
  ]

  unfoldable pub last_time : ℕ → Answer → BackupAnswer
  last_time t (ok out, w) = (ok t, w)
  last_time t (err e, w) = (err (if is_backup_time_collision e then exhausted e else e), w)

  -- the loop of Backup, at the time `t` with `left` later times to try
  unfoldable pub backup_from : ℕ → ℕ → Bytes → Bytes → Bytes → Bytes → cli.World → BackupAnswer
  unfolding next_time last_time
  backup_from zero t path backup_type backup_id namespace w =
      last_time t (run_with_retry (backup_args path backup_type backup_id t namespace) w)
  backup_from (suc left) t path backup_type backup_id namespace w =
      next_time (backup_from left (t + second) path backup_type backup_id namespace) t
        (run_with_retry (backup_args path backup_type backup_id t namespace) w)

  unfoldable pub backup : Bytes → Bytes → Bytes → ℕ → Bytes → cli.World → BackupAnswer
  backup path backup_type backup_id t namespace w =
      backup_from max_collision_retries t path backup_type backup_id namespace w

  abbrev pub Done : Type 0
  Done = Result PbsError (Unit {0}) × cli.World

  abbrev pub without_output : Answer → Done
  without_output (ok out, w) = (ok tt, w)
  without_output (err e, w) = (err e, w)

  unfoldable pub restore : Bytes → Bytes → ℕ → Bytes → Bytes → cli.World → Done
  restore backup_type backup_id t namespace out_file w =
      without_output (run_with_retry (restore_args backup_type backup_id t namespace out_file) w)

  abbrev pub not_found_is_done : Done → Done
  not_found_is_done (ok u, w) = (ok u, w)
  not_found_is_done (err e, w) = (if is_not_found e then ok tt else err e, w)

  unfoldable pub forget : Bytes → Bytes → ℕ → Bytes → cli.World → Done
  forget backup_type backup_id t namespace w =
      not_found_is_done
        (without_output (run_with_retry (forget_args backup_type backup_id t namespace) w))

  unfoldable pub update_notes : Bytes → Bytes → ℕ → Bytes → Bytes → cli.World → Done
  update_notes backup_type backup_id t namespace notes w =
      without_output (run_with_retry (notes_args backup_type backup_id t namespace notes) w)
