-- ===== src/Bridge/Tests.antt =====
-- A bridge over a host that keeps one snapshot, and the theorem at it.
use pterodactyl_proxmox_back.Prelude.{pos, ◌≡◌, refl, false, none, [], if◌then◌else◌, codes}
use pterodactyl_proxmox_back.SigV4.Presign.{verify}
use pterodactyl_proxmox_back.Config.{Config, Environment, config_of}
use pterodactyl_proxmox_back.Strings.{eq_bytes}
use pterodactyl_proxmox_back.Http.{Request, header_get, query_get}
use pterodactyl_proxmox_back.Backend.Toy.{engine}
use pterodactyl_proxmox_back.S3Api.{Stream, status_for_code, write_error_code}
use pterodactyl_proxmox_back.S3Api.Serve.{
  Handler, is_streaming, tagged, authenticate, write_auth_error, serve,
}
use pterodactyl_proxmox_back.Bridge.{verifier_of, engine_of, handler_of}
use pterodactyl_proxmox_back.Samples.{toy_crypto, empty_db}
use pterodactyl_proxmox_back.SigV4.Errors.{code_text}
use pterodactyl_proxmox_back.SigV4.Verify.{is_presigned, verify_header}
use pterodactyl_proxmox_back.Backend.{new_engine}

abbrev environment : Environment
environment key =
    if eq_bytes key (codes "BRIDGE_ACCESS_KEY")
    then codes "AK"
    else if eq_bytes key (codes "BRIDGE_SECRET_KEY")
    then codes "SK"
    else if eq_bytes key (codes "PBS_REPOSITORY")
    then codes "r"
    else if eq_bytes key (codes "PBS_API_TOKEN")
    then codes "t"
    else []

config : Config
unfolding config_of eq_bytes
config =
    config_of environment (pos 900000000000) (pos 86400000000000) (pos 1800000000000)
      (pos 3600000000000)

-- a request that is not signed
abbrev request : Request
request = record {
  method = codes "DELETE";
  path = codes "/b/k";
  host = codes "h";
  url_host = [];
  header = [];
  query = [];
}

abbrev bridge : Handler
bridge = handler_of toy_crypto (λ s. none) (λ r e. []) config engine

abbrev no_content : Stream
no_content = record { content = []; is_broken = false }

start : bridge.backend.State
unfolding handler_of engine_of new_engine
start = record {
  db = empty_db [];
  world = (record { files = []; dirs = []; faults = []; drawn = [] }, none);
  ticks = 0;
  draws = 0;
}

-- a request that is not signed is refused
refused : (serve bridge (pos 0) (codes "q") request no_content start).0.status ≡ 403
unfolding serve handler_of authenticate verify is_presigned verify_header tagged write_auth_error
    write_error_code status_for_code code_text query_get header_get is_streaming eq_bytes
    verifier_of
refused = refl
