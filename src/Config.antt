-- ===== src/Config.antt =====
-- internal/config/config.go: the configuration that is read from the environment.
pub mod Usable
pub mod Tests
use pterodactyl_proxmox_back.Prelude.{ℤ, pos, ℕ, List, [], ◌∷◌, Bytes, codes}
use pterodactyl_proxmox_back.Prelude.Int.{◌*ℤ◌, wrap64}
use pterodactyl_proxmox_back.Prelude.Result.{Result, ok, err, ◌>>=◌, ◌>>◌, or_err}
use pterodactyl_proxmox_back.Strings.Number.{atoi}

pub record Config : Type 0 where
  pub listen_addr : Bytes
  pub access_key : Bytes
  pub secret_key : Bytes
  pub region : Bytes
  pub clock_skew : ℤ
  pub data_dir : Bytes
  pub scratch_dir : Bytes
  pub multipart_ttl : ℤ
  pub gc_interval : ℤ
  pub pbs_repository : Bytes
  pub pbs_password : Bytes
  pub pbs_api_token : Bytes
  pub pbs_fingerprint : Bytes
  pub pbs_backup_type : Bytes
  pub pbs_command_timeout : ℤ
  pub pbs_bin_path : Bytes
  pub log_level : Bytes
  pub log_format : Bytes

pub data ConfigError : Type 0 where
  -- the variable whose number is not one
  invalid_number : Bytes → ConfigError
  missing_variables : List Bytes → ConfigError
  no_credential : ConfigError

-- os.Getenv: a variable that is not set is empty
abbrev pub Environment : Type 0
Environment = Bytes → Bytes

abbrev or_default : Bytes → Bytes → Bytes
or_default [] d = d
or_default (c ∷ s) d = c ∷ s

unfoldable pub get_env : Environment → Bytes → Bytes → Bytes
get_env e key d = or_default (e key) d

abbrev pub second : ℕ
second = 1000000000

abbrev pub minute : ℕ
minute = 60000000000

abbrev pub hour : ℕ
hour = 3600000000000

abbrev duration_or : Bytes → ℕ → ℕ → Bytes → Result ConfigError ℤ
duration_or key unit d [] = ok (wrap64 (pos d *ℤ pos unit))
duration_or key unit d (c ∷ s) =
    or_err (atoi (c ∷ s)) (invalid_number key) >>= λ n. ok (wrap64 (n *ℤ pos unit))

-- getEnvSeconds, getEnvMinutes and getEnvHours, by their unit; the product may wrap around
unfoldable pub get_env_duration : Environment → Bytes → ℕ → ℕ → Result ConfigError ℤ
get_env_duration e key unit d = duration_or key unit d (e key)

abbrev pub missing_if_empty : Bytes → Bytes → List Bytes → List Bytes
missing_if_empty [] key rest = key ∷ rest
missing_if_empty (c ∷ s) key rest = rest

unfoldable pub missing : Config → List Bytes
missing c = missing_if_empty c.access_key (codes "BRIDGE_ACCESS_KEY") (
    missing_if_empty c.secret_key (codes "BRIDGE_SECRET_KEY")
      (missing_if_empty c.pbs_repository (codes "PBS_REPOSITORY") []))

abbrev pub with_credential : Bytes → Bytes → Result ConfigError (Unit {0})
with_credential [] [] = err no_credential
with_credential password token = ok tt

abbrev pub none_missing : List Bytes → Result ConfigError (Unit {0}) → Result ConfigError (Unit {0})
none_missing [] r = r
none_missing (k ∷ ks) r = err (missing_variables (k ∷ ks))

unfoldable pub validate : Config → Result ConfigError (Unit {0})
unfolding missing
validate c = none_missing (missing c) (with_credential c.pbs_password c.pbs_api_token)

-- the variables that need no reading, with the four durations
unfoldable pub config_of : Environment → ℤ → ℤ → ℤ → ℤ → Config
config_of e skew ttl interval timeout = record {
  listen_addr = get_env e (codes "BRIDGE_LISTEN_ADDR") (codes ":8080");
  access_key = e (codes "BRIDGE_ACCESS_KEY");
  secret_key = e (codes "BRIDGE_SECRET_KEY");
  region = get_env e (codes "BRIDGE_REGION") (codes "us-east-1");
  clock_skew = skew;
  data_dir = get_env e (codes "BRIDGE_DATA_DIR") (codes "/var/lib/bridge/data");
  scratch_dir = get_env e (codes "BRIDGE_SCRATCH_DIR") (codes "/var/lib/bridge/scratch");
  multipart_ttl = ttl;
  gc_interval = interval;
  pbs_repository = e (codes "PBS_REPOSITORY");
  pbs_password = e (codes "PBS_PASSWORD");
  pbs_api_token = e (codes "PBS_API_TOKEN");
  pbs_fingerprint = e (codes "PBS_FINGERPRINT");
  pbs_backup_type = get_env e (codes "BRIDGE_PBS_BACKUP_TYPE") (codes "host");
  pbs_command_timeout = timeout;
  pbs_bin_path = get_env e (codes "BRIDGE_PBS_BIN_PATH") (codes "proxmox-backup-client");
  log_level = get_env e (codes "BRIDGE_LOG_LEVEL") (codes "info");
  log_format = get_env e (codes "BRIDGE_LOG_FORMAT") (codes "json");
}

unfoldable pub validated : Config → Result ConfigError Config
validated c = validate c >> ok c

unfoldable pub load : Environment → Result ConfigError Config
load e = do
  skew ← get_env_duration e (codes "BRIDGE_CLOCK_SKEW_SECONDS") second 900
  ttl ← get_env_duration e (codes "BRIDGE_MULTIPART_TTL_HOURS") hour 24
  interval ← get_env_duration e (codes "BRIDGE_GC_INTERVAL_MINUTES") minute 30
  timeout ← get_env_duration e (codes "BRIDGE_PBS_COMMAND_TIMEOUT_SECONDS") second 3600
  validated (config_of e skew ttl interval timeout)
