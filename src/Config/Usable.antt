-- ===== src/Config/Usable.antt =====
-- internal/config/config.go: what a configuration that is loaded has.
use mathlib.Core.Path.{subst}
use pterodactyl_proxmox_back.Prelude.{
  ◌≡◌, refl, sym, ap, ◌∙◌, ◌≢◌, ◌↔◌, ◌⊎◌, [], ◌∷◌, arith, Bytes, codes,
}
use pterodactyl_proxmox_back.Prelude.Result.{Result, ok, ◌>>=◌, ok_injective, ok_of_bind}
use pterodactyl_proxmox_back.Config.{
  Config, ConfigError, Environment, second, minute, hour, get_env_duration, missing_if_empty,
  missing, with_credential, none_missing, validate, config_of, validated, load,
}

-- the keys of the bridge, the repository and one of the two credentials are set
abbrev pub IsUsable : Config → Type 0
IsUsable c =
    (c.access_key ≢ [])
    × (c.secret_key ≢ [])
    × (c.pbs_repository ≢ [])
    × ((c.pbs_password ≢ []) ⊎ (c.pbs_api_token ≢ []))

validate-IsUsable : (c : Config) → (validate c ≡ ok tt) ↔ IsUsable c
unfolding validate missing
validate-IsUsable c = (
  to c.access_key c.secret_key c.pbs_repository c.pbs_password c.pbs_api_token,
  from c.access_key c.secret_key c.pbs_repository c.pbs_password c.pbs_api_token,
)
  where
    checked : Bytes → Bytes → Bytes → Bytes → Bytes → Result ConfigError (Unit {0})
    checked a s r p t =
        none_missing
          (missing_if_empty a (codes "BRIDGE_ACCESS_KEY") (
            missing_if_empty s (codes "BRIDGE_SECRET_KEY")
              (missing_if_empty r (codes "PBS_REPOSITORY") [])))
          (with_credential p t)

    Needed : Bytes → Bytes → Bytes → Bytes → Bytes → Type 0
    Needed a s r p t = (a ≢ []) × (s ≢ []) × (r ≢ []) × ((p ≢ []) ⊎ (t ≢ []))

    to : (a s r p t : Bytes) → checked a s r p t ≡ ok tt → Needed a s r p t
    to [] s r p t h = ground arith
    to (x ∷ a) [] r p t h = ground arith
    to (x ∷ a) (y ∷ s) [] p t h = ground arith
    to (x ∷ a) (y ∷ s) (z ∷ r) [] [] h = ground arith
    to (x ∷ a) (y ∷ s) (z ∷ r) (u ∷ p) t h = ground arith
    to (x ∷ a) (y ∷ s) (z ∷ r) [] (u ∷ t) h = ground arith

    from : (a s r p t : Bytes) → Needed a s r p t → checked a s r p t ≡ ok tt
    from [] s r p t h = ground arith
    from (x ∷ a) [] r p t h = ground arith
    from (x ∷ a) (y ∷ s) [] p t h = ground arith
    from (x ∷ a) (y ∷ s) (z ∷ r) [] [] h = ground arith
    from (x ∷ a) (y ∷ s) (z ∷ r) (u ∷ p) t h = refl
    from (x ∷ a) (y ∷ s) (z ∷ r) [] (u ∷ t) h = refl

validated-ok : (c : Config) {d : Config} → validated c ≡ ok d → IsUsable c × (c ≡ d)
unfolding validated
validated-ok c h =
    let (u, v, same) = ok_of_bind (validate c) (λ _. ok c) h in
    ((validate-IsUsable c).0 v, ok_injective same)

-- A configuration that was loaded has both keys, the repository, and a password or a token; its
-- clock skew is what getEnvDuration makes of its variable with the unit of a second and the default
-- 900, an int64 number of nanoseconds that wraps around where the product is beyond its range; and
-- its secret key is the variable's.
pub load-IsUsable :
    (e : Environment) {c : Config}
    → load e ≡ ok c
    → IsUsable c
      × (get_env_duration e (codes "BRIDGE_CLOCK_SKEW_SECONDS") second 900 ≡ ok c.clock_skew)
      × (c.secret_key ≡ e (codes "BRIDGE_SECRET_KEY"))
unfolding load config_of
load-IsUsable e h =
    let skew = get_env_duration e (codes "BRIDGE_CLOCK_SKEW_SECONDS") second 900 in
    let ttl = get_env_duration e (codes "BRIDGE_MULTIPART_TTL_HOURS") hour 24 in
    let interval = get_env_duration e (codes "BRIDGE_GC_INTERVAL_MINUTES") minute 30 in
    let timeout = get_env_duration e (codes "BRIDGE_PBS_COMMAND_TIMEOUT_SECONDS") second 3600 in
    let (s, es, h1) =
      ok_of_bind skew
        (λ s. ttl >>= λ t. interval >>= λ i. timeout >>= λ o. validated (config_of e s t i o)) h in
    let (t, et, h2) =
      ok_of_bind ttl (λ t. interval >>= λ i. timeout >>= λ o. validated (config_of e s t i o)) h1 in
    let (i, ei, h3) =
      ok_of_bind interval (λ i. timeout >>= λ o. validated (config_of e s t i o)) h2 in
    let (o, eo, h4) = ok_of_bind timeout (λ o. validated (config_of e s t i o)) h3 in
    let (usable, same) = validated-ok (config_of e s t i o) h4 in
    (
      subst IsUsable same usable,
      es ∙ ap (λ c. ok (Config.clock_skew c)) same,
      sym (ap Config.secret_key same),
    )
