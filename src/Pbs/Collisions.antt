-- ===== src/Pbs/Collisions.antt =====
-- internal/pbs/client.go, Backup: the time a snapshot gets, and what a backup that failed says.
use mathlib.Core.Path.{subst}
use pterodactyl_proxmox_back.Prelude.{
  ℕ, zero, suc, ◌+◌, ◌*◌, ◌≤◌, ◌<◌, ◌≡◌, refl, sym, ap, ◌∙◌, ◌↔◌, inl, inr, true, List, arith,
  Bool-cases, Bytes,
}
use pterodactyl_proxmox_back.Prelude.Result.{ok, err, ok_injective}
use pterodactyl_proxmox_back.Pbs.{PbsError, is_backup_time_collision}
use pterodactyl_proxmox_back.Pbs.Client.{
  Output, Cli, Client, max_collision_retries, backup_args, Answer, run_with_retry, next_time,
  last_time, backup_from, backup,
}
use pterodactyl_proxmox_back.Pbs.Time.{second}

module _ (cli : Cli) (environ : List Bytes) (c : Client)
    (path backup_type backup_id namespace : Bytes) where
  attempt : ℕ → cli.World → Answer cli environ c
  attempt t w = run_with_retry cli environ c (backup_args path backup_type backup_id t namespace) w

  -- `n` backups, at the time `t` and every second after it, were refused because the time is
  -- taken, and lead from a world to another
  unfoldable pub Collided : ℕ → ℕ → cli.World → cli.World → Type 0
  unfolding attempt
  Collided zero t w v = w ≡ v
  Collided (suc n) t w v =
      (e : PbsError) × (u : cli.World) × (attempt t w ≡ (err e, u))
      × (is_backup_time_collision e ≡ true)
      × Collided n (t + second) u v

  -- a backup that is made at `used`, after the times before it were taken
  Made : ℕ → ℕ → ℕ → cli.World → cli.World → Type 0
  Made left t used w after =
      (n : ℕ) × (v : cli.World) × (out : Output) × (n ≤ left)
      × (used ≡ t + n * second)
      × Collided n t w v
      × (attempt used v ≡ (ok out, after))

  the_first : (t used : ℕ) → t + 0 * second ≡ used → t ≡ used
  the_first t used s = omega arith

  step-Made :
      (left t used : ℕ) (w after : cli.World)
      → ((x : cli.World)
          → backup_from cli environ c left (t + second) path backup_type backup_id namespace x
            ≡ (ok used, after)
          → Made left (t + second) used x after)
      → (a : Answer cli environ c) → attempt t w ≡ a
      → next_time cli environ c
          (backup_from cli environ c left (t + second) path backup_type backup_id namespace)
          t
          a
        ≡ (ok used, after)
      → Made (suc left) t used w after
  unfolding next_time Made Collided
  step-Made left t used w after again (ok out, u) r k =
      let same = ok_injective (ap (λ p. p.0) k) in
      (
        0,
        w,
        out,
        omega arith,
        sym same ∙ omega arith,
        refl,
        subst (λ x. attempt x w ≡ (ok out, after)) same (r ∙ ap (λ p. (ok out, p.1)) k),
      )
  step-Made left t used w after again (err e, u) r k =
      elim (Bool-cases (is_backup_time_collision e)) [
        | inl q ↦
            let (n, v, out, le, same, col, last) = again u (rw (next_time, q) at k) in
            (suc n, v, out, omega arith, omega arith, (e, u, r, q, col), last)
        | inr q ↦ cc (rw (next_time, q) at k)
      ]

  last-Made :
      (t used : ℕ) (w after : cli.World) (a : Answer cli environ c)
      → attempt t w ≡ a
      → last_time cli environ c t a ≡ (ok used, after)
      → Made 0 t used w after
  unfolding last_time Made Collided
  last-Made t used w after (ok out, u) r k =
      let same = ok_injective (ap (λ p. p.0) k) in
      (
        0,
        w,
        out,
        omega arith,
        sym same ∙ omega arith,
        refl,
        subst (λ x. attempt x w ≡ (ok out, after)) same (r ∙ ap (λ p. (ok out, p.1)) k),
      )
  last-Made t used w after (err e, u) r k = cc

  backup_from-Made :
      (left t used : ℕ) (w after : cli.World)
      → backup_from cli environ c left t path backup_type backup_id namespace w ≡ (ok used, after)
      → Made left t used w after
  unfolding backup_from attempt
  backup_from-Made zero t used w after h = last-Made t used w after (attempt t w) refl h
  backup_from-Made (suc left) t used w after h =
      step-Made left t used w after (λ x. backup_from-Made left (t + second) used x after)
        (attempt t w) refl h

  Made-backup_from :
      (n left t used : ℕ) (out : Output) (w v after : cli.World)
      → n ≤ left
      → t + n * second ≡ used
      → Collided n t w v
      → attempt used v ≡ (ok out, after)
      → backup_from cli environ c left t path backup_type backup_id namespace w ≡ (ok used, after)
  unfolding backup_from attempt next_time last_time Collided
  Made-backup_from zero zero t used out w v after le s col h =
      let same = the_first t used s in rw (same, col, h) refl
  Made-backup_from zero (suc left) t used out w v after le s col h =
      let same = the_first t used s in rw (same, col, h) refl
  Made-backup_from (suc n) zero t used out w v after le s col h = ground arith
  Made-backup_from (suc n) (suc left) t used out w v after le s (e, u, r, q, col) h =
      rw (r, next_time, q)
        (Made-backup_from n left (t + second) used out u v after (omega arith) (omega arith) col h)

  -- A backup is made at a time exactly if that is the time asked for or one of the next five
  -- seconds, all the times before it were refused as taken, and the command with that time has
  -- succeeded.
  pub backup_iff :
      (t used : ℕ) (w after : cli.World)
      → (backup cli environ c path backup_type backup_id t namespace w ≡ (ok used, after)) ↔ (
          (n : ℕ) × (v : cli.World) × (out : Output) × (n < 6)
          × (t + n * second ≡ used)
          × Collided n t w v
          × (run_with_retry cli environ c (backup_args path backup_type backup_id used namespace) v
              ≡ (ok out, after)))
  unfolding backup Made attempt
  backup_iff t used w after = (
    (λ h.
        let (n, v, out, le, s, col, last) =
          backup_from-Made max_collision_retries t used w after h in
        (n, v, out, omega arith, sym s, col, last)),
    (λ (n, v, out, le, s, col, last).
        Made-backup_from n max_collision_retries t used out w v after (omega arith) s col last),
  )
