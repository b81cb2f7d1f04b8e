-- ===== src/Pbs/Keeps.antt =====
-- internal/pbs/client.go: what each run of a command and each wait leaves as it is, the loops leave
-- as it is.
use mathlib.Core.Path.{subst}
use pterodactyl_proxmox_back.Prelude.{
  ℕ, zero, suc, ◌+◌, ◌*◌, ◌≡◌, ap, inl, inr, Bool, true, false, List, Bool-cases, Bytes,
}
use pterodactyl_proxmox_back.Pbs.{PbsError, is_backup_time_collision, is_transient}
use pterodactyl_proxmox_back.Pbs.Client.{
  Output, Cli, Client, more_tries, base_delay, max_collision_retries, backup_args, Answer, run,
  capped, waited, next_try, retry, run_with_retry, BackupAnswer, next_time, last_time, backup_from,
  backup,
}
use pterodactyl_proxmox_back.Pbs.Time.{second}
use pterodactyl_proxmox_back.Pbs.Retry.{Tried, run_with_retry_iff}
use pterodactyl_proxmox_back.Pbs.Collisions.{Collided, backup_iff}
use pterodactyl_proxmox_back.Prelude.Result.{ok, err}

module _ (cli : Cli) (environ : List Bytes) (c : Client) (P : cli.World → Type 0) where
  abbrev pub KeptBy : List Bytes → Type 0
  KeptBy args = (w : cli.World) → P w → P ((run cli environ c args w).1)

  abbrev pub WaitsKeep : Type 0
  WaitsKeep = (delay : ℕ) (w : cli.World) → P w → P ((cli.wait delay w).1)

  waited-kept :
      (again : cli.World → Answer cli environ c) (e : PbsError) (b : Bool × cli.World)
      → ((x : cli.World) → P x → P ((again x).1))
      → P b.1
      → P ((waited cli environ c again e b).1)
  unfolding waited
  waited-kept again e (true, w) k p = k w p
  waited-kept again e (false, w) k p = p

  next_try-kept :
      (again : cli.World → Answer cli environ c) (delay : ℕ) (a : Answer cli environ c)
      → ((x : cli.World) → P x → P ((again x).1))
      → WaitsKeep
      → P a.1
      → P ((next_try cli environ c again delay a).1)
  unfolding next_try
  next_try-kept again delay (ok out, w) k v p = p
  next_try-kept again delay (err e, w) k v p = elim (Bool-cases (is_transient e)) [
    | inl t ↦ rw (next_try, t) (waited-kept again e (cli.wait delay w) k (v delay w p))
    | inr t ↦ rw (next_try, t) p
  ]

  pub retry-kept :
      (left delay : ℕ) (args : List Bytes) (w : cli.World)
      → KeptBy args
      → WaitsKeep
      → P w
      → P ((retry cli environ c left delay args w).1)
  unfolding retry
  retry-kept zero delay args w k v p = k w p
  retry-kept (suc left) delay args w k v p =
      next_try-kept (retry cli environ c left (capped cli environ c (delay * 3)) args) delay
        (run cli environ c args w)
        (λ x. retry-kept left (capped cli environ c (delay * 3)) args x k v) v (k w p)

  pub run_with_retry-kept :
      (args : List Bytes) (w : cli.World)
      → KeptBy args
      → WaitsKeep
      → P w
      → P ((run_with_retry cli environ c args w).1)
  unfolding run_with_retry
  run_with_retry-kept args w k v p = retry-kept more_tries base_delay args w k v p

  -- the first tries
  Tried-kept :
      (args : List Bytes) (n delay : ℕ) (w x : cli.World)
      → KeptBy args
      → WaitsKeep
      → Tried cli environ c args n delay w x
      → P w
      → P x
  Tried-kept args zero delay w x k v t p = subst P t p
  Tried-kept args (suc n) delay w x k v (e, u, y, r, q, s, t) p =
      Tried-kept args n (capped cli environ c (delay * 3)) y x k v t
        (subst P (ap (λ b. b.1) s) (v delay u (subst P (ap (λ b. b.1) r) (k w p))))

  module _ (path backup_type backup_id namespace : Bytes) where
    abbrev BackupsKeep : Type 0
    BackupsKeep = (t : ℕ) → KeptBy (backup_args path backup_type backup_id t namespace)

    next_time-kept :
        (again : cli.World → BackupAnswer cli environ c) (t : ℕ) (a : Answer cli environ c)
        → ((x : cli.World) → P x → P ((again x).1))
        → P a.1
        → P ((next_time cli environ c again t a).1)
    unfolding next_time
    next_time-kept again t (ok out, w) k p = p
    next_time-kept again t (err e, w) k p = elim (Bool-cases (is_backup_time_collision e)) [
      | inl q ↦ rw (next_time, q) (k w p)
      | inr q ↦ rw (next_time, q) p
    ]

    last_time-kept :
        (t : ℕ) (a : Answer cli environ c) → P a.1 → P ((last_time cli environ c t a).1)
    unfolding last_time
    last_time-kept t (ok out, w) p = p
    last_time-kept t (err e, w) p = p

    backup_from-kept :
        (left t : ℕ) (w : cli.World)
        → BackupsKeep
        → WaitsKeep
        → P w
        → P ((backup_from cli environ c left t path backup_type backup_id namespace w).1)
    unfolding backup_from
    backup_from-kept zero t w k v p =
        last_time-kept t
          (run_with_retry cli environ c (backup_args path backup_type backup_id t namespace) w)
          (run_with_retry-kept (backup_args path backup_type backup_id t namespace) w (k t) v p)
    backup_from-kept (suc left) t w k v p =
        next_time-kept
          (backup_from cli environ c left (t + second) path backup_type backup_id namespace) t
          (run_with_retry cli environ c (backup_args path backup_type backup_id t namespace) w)
          (λ x. backup_from-kept left (t + second) x k v)
          (run_with_retry-kept (backup_args path backup_type backup_id t namespace) w (k t) v p)

    pub backup-kept :
        (t : ℕ) (w : cli.World)
        → BackupsKeep
        → WaitsKeep
        → P w
        → P ((backup cli environ c path backup_type backup_id t namespace w).1)
    unfolding backup
    backup-kept t w k v p = backup_from-kept max_collision_retries t w k v p

    Collided-kept :
        (n t : ℕ) (w x : cli.World)
        → BackupsKeep
        → WaitsKeep
        → Collided cli environ c path backup_type backup_id namespace n t w x
        → P w
        → P x
    unfolding Collided
    Collided-kept zero t w x k v col p = subst P col p
    Collided-kept (suc n) t w x k v (e, u, r, q, col) p = Collided-kept n (t + second) u x k v col (
        subst P (ap (λ b. b.1) r)
          (run_with_retry-kept (backup_args path backup_type backup_id t namespace) w (k t) v p))

    -- the run that has made the backup, in a world that was kept until then
    pub backup-made :
        (t used : ℕ) (w after : cli.World)
        → BackupsKeep
        → WaitsKeep
        → P w
        → backup cli environ c path backup_type backup_id t namespace w ≡ (ok used, after)
        → (v : cli.World) × (out : Output) × P v
          × (run cli environ c (backup_args path backup_type backup_id used namespace) v
              ≡ (ok out, after))
    backup-made t used w after k v p h =
        let (n, x, out, le, s, col, last) =
          (backup_iff cli environ c path backup_type backup_id namespace t used w after).0 h in
        let args = backup_args path backup_type backup_id used namespace in
        let (m, y, le2, tried, run_ok) =
          (run_with_retry_iff cli environ c args out x after).0 last in
        (
          y,
          out,
          Tried-kept args m base_delay x y (k used) v tried (Collided-kept n t w x k v col p),
          run_ok,
        )
