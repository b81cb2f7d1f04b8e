-- ===== src/Bridge.antt =====
-- cmd/bridge/main.go: how the parts are put together from a configuration.
pub mod Guarded
pub mod Tests
use pterodactyl_proxmox_back.Prelude.{[], if◌then◌else◌, Bytes}
use pterodactyl_proxmox_back.Config.{Config}
use pterodactyl_proxmox_back.Strings.{eq_bytes}
use pterodactyl_proxmox_back.Http.{Request}
use pterodactyl_proxmox_back.SigV4.Errors.{ErrorCode}
use pterodactyl_proxmox_back.SigV4.Canonical.{Crypto}
use pterodactyl_proxmox_back.SigV4.Verify.{Verifier}
use pterodactyl_proxmox_back.Pbs.Client.{Client}
use pterodactyl_proxmox_back.Backend.{Engine, new_engine}
use pterodactyl_proxmox_back.Backend.Interface.{engine_backend}
use pterodactyl_proxmox_back.S3Api.Uploads.{ParseXml}
use pterodactyl_proxmox_back.S3Api.Serve.{Handler}

-- pbsPassword
unfoldable pub pbs_password : Config → Bytes
pbs_password cfg = if eq_bytes cfg.pbs_api_token [] then cfg.pbs_password else cfg.pbs_api_token

unfoldable pub client_of : Config → Client
unfolding pbs_password
client_of cfg = record {
  repository = cfg.pbs_repository;
  password = pbs_password cfg;
  fingerprint = cfg.pbs_fingerprint;
  bin_path = cfg.pbs_bin_path;
}

unfoldable pub verifier_of : Config → Verifier
verifier_of cfg = record {
  creds = record { access_key = cfg.access_key; secret_key = cfg.secret_key };
  service = [];
  clock_skew = cfg.clock_skew;
}

-- the engine over the host, the database and the hashes of `g`
unfoldable pub engine_of : Config → Engine → Engine
engine_of cfg g =
    new_engine (record g {
      client = client_of cfg;
      backup_type = cfg.pbs_backup_type;
      root = cfg.scratch_dir;
    })

-- the handler that run starts the server with
unfoldable pub handler_of :
    Crypto → ParseXml → (Request → ErrorCode → Bytes) → Config → Engine → Handler
handler_of c parse message cfg g = record {
  crypto = c;
  verifier = verifier_of cfg;
  backend = engine_backend (engine_of cfg g);
  parse = parse;
  message = message;
}
