-- ===== src/Pbs.antt =====
-- internal/pbs/errors.go: the errors of proxmox-backup-client and what they are taken for.
pub mod Time
pub mod Client
pub mod Stream
pub mod Retry
pub mod Collisions
pub mod Forgotten
pub mod Keeps
pub mod Tests
use pterodactyl_proxmox_back.Prelude.{
  ℤ, negsuc, Bool, false, ◌||◌, Option, List, [], ◌∷◌, Bytes, codes,
}
use pterodactyl_proxmox_back.Strings.{contains}
use pterodactyl_proxmox_back.Strings.Lower.{to_lower}

-- An error of a command: PBSError, the error of Backup that wraps one when all tries collided, or
-- one of RestoreStream that is not from the command.
pub data PbsError : Type 0 where
  failed : List Bytes → ℤ → Bytes → PbsError
  exhausted : PbsError → PbsError
  no_stream : PbsError

-- os/exec: the command exited with a code, or was not run to its end
pub data RunError : Type 0 where
  exit_error : ℤ → RunError
  other_error : RunError

-- What a command that writes to a pipe has come to when its first bytes are waited for: it did
-- not start, the wait was over, the read failed, it ended without a byte, or it has written and
-- these bytes can be read.
pub data StreamStart : Type 0 where
  not_started too_late read_failed : StreamStart
  ended : Option RunError → Bytes → StreamStart
  opened : Bytes → StreamStart

-- classifyError
unfoldable pub classify_error : List Bytes → RunError → Bytes → PbsError
classify_error args (exit_error code) stderr = failed args code stderr
classify_error args other_error stderr = failed args (negsuc 0) stderr

unfoldable pub contains_any : Bytes → List Bytes → Bool
contains_any s [] = false
contains_any s (t ∷ ts) = contains s t || contains_any s ts

-- stderrContainsAny; errors.As finds the wrapped error
unfoldable pub stderr_contains_any : PbsError → List Bytes → Bool
stderr_contains_any (failed args code stderr) texts = contains_any (to_lower stderr) texts
stderr_contains_any (exhausted e) texts = stderr_contains_any e texts
stderr_contains_any no_stream texts = false

abbrev pub collision_texts : List Bytes
collision_texts = codes "backup time in the past" ∷ codes "already exists" ∷ codes "atime" ∷ []

unfoldable pub is_backup_time_collision : PbsError → Bool
is_backup_time_collision e = stderr_contains_any e collision_texts

abbrev pub not_found_texts : List Bytes
not_found_texts = codes "no such" ∷ codes "not found" ∷ codes "does not exist" ∷ []

unfoldable pub is_not_found : PbsError → Bool
is_not_found e = stderr_contains_any e not_found_texts

unfoldable pub is_already_exists : PbsError → Bool
is_already_exists e = stderr_contains_any e (codes "already exists" ∷ [])

abbrev pub transient_texts : List Bytes
transient_texts =
    codes "simulated transient failure"
    ∷ codes "connection refused"
    ∷ codes "connection reset"
    ∷ codes "broken pipe"
    ∷ codes "timed out"
    ∷ codes "timeout"
    ∷ codes "could not connect"
    ∷ codes "tls handshake"
    ∷ codes "network is unreachable"
    ∷ codes "temporarily unavailable"
    ∷ []

unfoldable pub is_transient : PbsError → Bool
is_transient e = stderr_contains_any e transient_texts
