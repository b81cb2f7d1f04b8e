-- ===== src/Pbs/Tests.antt =====
-- A command with prepared answers, a server with one snapshot, and the theorems at them.
use pterodactyl_proxmox_back.Prelude.{
  pos, ℕ, ◌+◌, ◌*◌, ◌<◌, ◌≡◌, refl, sym, ap, ◌↔◌, Bool, true, false, Option, none, some, List, [],
  ◌∷◌, Bytes, codes,
}
use pterodactyl_proxmox_back.Prelude.Int.{◌-ℤ◌}
use pterodactyl_proxmox_back.Prelude.Result.{ok, err}
use pterodactyl_proxmox_back.Pbs.{
  PbsError, failed, RunError, exit_error, not_started, classify_error, contains_any,
  stderr_contains_any, is_backup_time_collision, is_not_found, is_transient,
}
use pterodactyl_proxmox_back.Pbs.Client.{
  Output, Cli, Client, base_delay, program, env_if_set, env, backup_args, run, waited, next_try,
  retry, run_with_retry, next_time, backup_from, backup,
}
use pterodactyl_proxmox_back.Pbs.Time.{second, unix, civil, format_time}
use pterodactyl_proxmox_back.Pbs.Retry.{Tried, run_with_retry_iff}
use pterodactyl_proxmox_back.Pbs.Collisions.{Collided, backup_iff}
use pterodactyl_proxmox_back.Pbs.Forgotten.{Forgets}
use pterodactyl_proxmox_back.Strings.{eq_bytes, has_prefix, contains}
use pterodactyl_proxmox_back.Strings.Lower.{lower_byte, to_lower}
use pterodactyl_proxmox_back.Strings.Decimal.{decimal, padded, itoa}

abbrev silent : Output
silent = record { stdout = []; stderr = [] }

abbrev says : Bytes → Output × Option RunError
says text = (record { stdout = []; stderr = text }, some (exit_error (pos 1)))

abbrev succeeds : Output × Option RunError
succeeds = (silent, none)

abbrev Prepared : Type 0
Prepared = List (Output × Option RunError)

abbrev next_answer : Prepared → (Output × Option RunError) × Prepared
next_answer [] = (succeeds, [])
next_answer (a ∷ w) = (a, w)

abbrev prepared : Cli
prepared = record {
  World = Prepared;
  execute = λ bin args environ w. next_answer w;
  stream = λ bin args environ w. (not_started, w);
  wait = λ delay w. (true, w);
}

abbrev client : Client
client = record { repository = codes "r"; password = []; fingerprint = []; bin_path = [] }

abbrev refused : Output × Option RunError
refused = says (codes "Error: Connection refused")

abbrev taken : Output × Option RunError
taken = says (codes "backup time in the past")

refused_is_transient :
    is_transient (failed (codes "x" ∷ []) (pos 1) (codes "Error: Connection refused")) ≡ true
unfolding is_transient stderr_contains_any contains_any contains has_prefix to_lower lower_byte
refused_is_transient = refl

run_with_retry_iff_example :
    (run_with_retry prepared [] client (codes "x" ∷ []) (refused ∷ refused ∷ succeeds ∷ [])
      ≡ (ok silent, []))
    ↔ ((n : ℕ) × (v : Prepared) × (n < 3)
        × Tried prepared [] client
            (codes "x" ∷ [])
            n
            base_delay
            (refused ∷ refused ∷ succeeds ∷ [])
            v
        × (run prepared [] client (codes "x" ∷ []) v ≡ (ok silent, [])))
run_with_retry_iff_example =
    run_with_retry_iff prepared [] client (codes "x" ∷ []) silent
      (refused ∷ refused ∷ succeeds ∷ []) []

backup_iff_example :
    (backup prepared [] client
        (codes "f")
        (codes "host")
        (codes "i")
        second
        []
        (taken ∷ succeeds ∷ [])
      ≡ (ok (2 * second), []))
    ↔ ((n : ℕ) × (v : Prepared) × (out : Output) × (n < 6)
        × (second + n * second ≡ 2 * second)
        × Collided prepared [] client
            (codes "f")
            (codes "host")
            (codes "i")
            []
            n
            second
            (taken ∷ succeeds ∷ [])
            v
        × (run_with_retry prepared [] client
              (backup_args (codes "f") (codes "host") (codes "i") (2 * second) [])
              v
            ≡ (ok out, [])))
backup_iff_example =
    backup_iff prepared [] client (codes "f") (codes "host") (codes "i") [] second (2 * second)
      (taken ∷ succeeds ∷ []) []

-- both sides hold here
backed_up_later :
    backup prepared [] client
      (codes "f")
      (codes "host")
      (codes "i")
      second
      []
      (taken ∷ refused ∷ succeeds ∷ [])
    ≡ (ok (2 * second), [])
unfolding backup backup_from next_time run_with_retry retry next_try waited run backup_args itoa
    unix format_time decimal ◌-ℤ◌ is_transient is_backup_time_collision stderr_contains_any
    contains_any contains has_prefix to_lower lower_byte eq_bytes classify_error env env_if_set
    program
backed_up_later = refl

-- a server with one snapshot, which is there or not
abbrev forget_run : Bool → (Output × Option RunError) × Bool
forget_run true = (succeeds, false)
forget_run false = (says (codes "snapshot not found"), false)

abbrev server : Cli
server = record {
  World = Bool;
  execute = λ bin args environ w. forget_run w;
  stream = λ bin args environ w. (not_started, w);
  wait = λ delay w. (true, w);
}

abbrev Gone : Bool → Type 0
Gone w = w ≡ false

server-Forgets : (args : List Bytes) → Forgets server [] client args Gone
unfolding run classify_error is_not_found is_transient stderr_contains_any contains_any contains
    has_prefix to_lower lower_byte
server-Forgets args = record {
  gone_when_done = done;
  gone_when_not_found = not_there;
  not_found_when_gone =
      λ w g. (failed args (pos 1) (codes "snapshot not found"), false, rw g, refl, refl, refl);
  gone_after_wait = λ delay w g. g;
}
  where
    done : (w u : Bool) (out : Output) → run server [] client args w ≡ (ok out, u) → u ≡ false
    done true u out h = sym (ap (λ p. p.1) h)
    done false u out h = cc

    not_there :
        (w u : Bool) (e : PbsError)
        → run server [] client args w ≡ (err e, u)
        → is_not_found e ≡ true
        → u ≡ false
    not_there true u e h n = cc
    not_there false u e h n = sym (ap (λ p. p.1) h)

-- the texts of times
format_time_1700000000 :
    format_time ((62167219200 + 1700000000) * second) ≡ codes "2023-11-14T22:13:20Z"
unfolding format_time civil padded decimal
format_time_1700000000 = refl

civil_leap : civil 59 ≡ record { year = 0; month = 2; day = 29 }
unfolding civil
civil_leap = refl
