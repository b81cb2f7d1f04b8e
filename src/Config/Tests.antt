-- ===== src/Config/Tests.antt =====
-- An environment with the variables that are needed, and the theorem at it.
use pterodactyl_proxmox_back.Prelude.{pos, ◌≡◌, refl, List, [], ◌∷◌, if◌then◌else◌, Bytes, codes}
use pterodactyl_proxmox_back.Prelude.Int.{◌*ℤ◌, wrap64}
use pterodactyl_proxmox_back.Prelude.Result.{ok}
use pterodactyl_proxmox_back.Config.{
  Environment, second, get_env_duration, missing, validate, config_of, validated, load,
}
use pterodactyl_proxmox_back.Config.Usable.{IsUsable, load-IsUsable}
use pterodactyl_proxmox_back.Strings.{eq_bytes}
use pterodactyl_proxmox_back.Strings.Number.{digit_value, parse_int}

abbrev lookup_env : List (Bytes × Bytes) → Bytes → Bytes
lookup_env [] key = []
lookup_env ((k, v) ∷ e) key = if eq_bytes k key then v else lookup_env e key

abbrev environment : Environment
environment = lookup_env (
    (codes "BRIDGE_ACCESS_KEY", codes "A")
    ∷ (codes "BRIDGE_SECRET_KEY", codes "S")
    ∷ (codes "PBS_REPOSITORY", codes "r")
    ∷ (codes "PBS_API_TOKEN", codes "t")
    ∷ (codes "BRIDGE_CLOCK_SKEW_SECONDS", codes "60")
    ∷ [])

load-IsUsable_example :
    IsUsable (
      config_of environment
        (pos 60000000000)
        (pos 86400000000000)
        (pos 1800000000000)
        (pos 3600000000000))
    × (get_env_duration environment (codes "BRIDGE_CLOCK_SKEW_SECONDS") second 900
        ≡ ok (pos 60000000000))
    × (codes "S" ≡ environment (codes "BRIDGE_SECRET_KEY"))
unfolding load validated validate missing get_env_duration config_of eq_bytes parse_int digit_value
    wrap64 ◌*ℤ◌
load-IsUsable_example = load-IsUsable environment refl
