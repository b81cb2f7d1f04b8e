-- ===== src/Backend/Laws.antt =====
-- internal/backend/backend.go: what proxmox-backup-client is relied on for, and the steps that
-- take no snapshot away.
use pterodactyl_proxmox_back.Prelude.{ℕ, ◌≡◌, refl, ◌∙◌, ◌≢◌, List, Bytes}
use pterodactyl_proxmox_back.Prelude.Steps.{continued, ◌>>=◌}
use pterodactyl_proxmox_back.Prelude.Result.{Result, ok, err}
use pterodactyl_proxmox_back.Store.Objects.{ObjectMapping}
use pterodactyl_proxmox_back.Disk.{Disk, Action}
use pterodactyl_proxmox_back.Pbs.Client.{
  Output, Cli, Client, snapshot_id, backup_args, forget_args, notes_args, Answer, run,
  run_with_retry, backup, Done, without_output, not_found_is_done, forget, update_notes,
}
use pterodactyl_proxmox_back.Pbs.Time.{from_unix}
use pterodactyl_proxmox_back.Pbs.Keeps.{WaitsKeep, run_with_retry-kept, backup-kept}
use pterodactyl_proxmox_back.S3Api.{BackendError}
use pterodactyl_proxmox_back.Backend.{cli_of, Engine, State, Step, now, on_pbs, on_disk}
use pterodactyl_proxmox_back.Backend.Objects.{forget_mapping}

-- a namespace, and the type, group and time of a snapshot in it
abbrev pub Snap : Type 0
Snap = Bytes × Bytes

unfoldable pub snapshot_of : ObjectMapping → Snap
snapshot_of m =
    (m.namespace, snapshot_id m.pbs_backup_type m.pbs_backup_id (from_unix m.pbs_backup_time))

without_output-kept :
    (cli : Cli) (environ : List Bytes) (c : Client) (P : cli.World → Type 0)
    (a : Answer cli environ c)
    → P a.1
    → P ((without_output cli environ c a).1)
without_output-kept cli environ c P (ok out, w) p = p
without_output-kept cli environ c P (err e, w) p = p

not_found_is_done-kept :
    (cli : Cli) (environ : List Bytes) (c : Client) (P : cli.World → Type 0)
    (a : Done cli environ c)
    → P a.1
    → P ((not_found_is_done cli environ c a).1)
not_found_is_done-kept cli environ c P (ok u, w) p = p
not_found_is_done-kept cli environ c P (err e, w) p = p

module _ (g : Engine) (Snapshot : Snap → Disk × g.host.Server → Type 0) where
  abbrev pub one_run : List Bytes → Disk × g.host.Server → Answer (cli_of g.host) g.environ g.client
  one_run args w = run (cli_of g.host) g.environ g.client args w

  -- What is documented of one run of the command: a backup that succeeds has made the snapshot,
  -- which was not there before; no run but a forget takes a snapshot away, and a forget only its
  -- own; and snapshots are not on the scratch disk and do not go away with time.
  pub record IsPbs : Type 0 where
    pub made_by_backup :
        (path backup_type backup_id : Bytes) (t : ℕ) (namespace : Bytes)
        (w u : Disk × g.host.Server) (out : Output)
        → one_run (backup_args path backup_type backup_id t namespace) w ≡ (ok out, u)
        → Snapshot (namespace, snapshot_id backup_type backup_id t) u
    pub free_before_backup :
        (path backup_type backup_id : Bytes) (t : ℕ) (namespace : Bytes)
        (w u : Disk × g.host.Server) (out : Output)
        → one_run (backup_args path backup_type backup_id t namespace) w ≡ (ok out, u)
        → ¬ Snapshot (namespace, snapshot_id backup_type backup_id t) w
    pub backup_keeps :
        (path backup_type backup_id : Bytes) (t : ℕ) (namespace : Bytes) (x : Snap)
        (w : Disk × g.host.Server)
        → Snapshot x w
        → Snapshot x ((one_run (backup_args path backup_type backup_id t namespace) w).1)
    pub notes_keep :
        (backup_type backup_id : Bytes) (t : ℕ) (namespace notes : Bytes) (x : Snap)
        (w : Disk × g.host.Server)
        → Snapshot x w
        → Snapshot x ((one_run (notes_args backup_type backup_id t namespace notes) w).1)
    pub forget_keeps :
        (backup_type backup_id : Bytes) (t : ℕ) (namespace : Bytes) (x : Snap)
        (w : Disk × g.host.Server)
        → (namespace, snapshot_id backup_type backup_id t) ≢ x
        → Snapshot x w
        → Snapshot x ((one_run (forget_args backup_type backup_id t namespace) w).1)
    pub wait_keeps :
        (x : Snap) (delay : ℕ) (w : Disk × g.host.Server)
        → Snapshot x w
        → Snapshot x ((g.host.wait delay w).1)
    pub disk_apart :
        (x : Snap) (d e : Disk) (v : g.host.Server) → Snapshot x (d, v) → Snapshot x (e, v)

  -- the database is the same, and the snapshots are all there
  abbrev pub Grows : State g → State g → Type 0
  Grows s t = (t.db ≡ s.db) × ((x : Snap) → Snapshot x s.world → Snapshot x t.world)

  abbrev pub Growing {ℓ} : {A : Type ℓ} → Step g A → Type 0
  Growing m = (s : State g) → Grows s ((m s).1)

  Grows-trans : (s t u : State g) → Grows s t → Grows t u → Grows s u
  Grows-trans s t u a b = (b.0 ∙ a.0, λ x h. b.1 x (a.1 x h))

  continued-Grows {ℓ κ} :
      {A : Type ℓ} {B : Type κ} (s : State g) (r : Result BackendError A × State g)
      (f : A → Step g B)
      → Grows s r.1
      → ((a : A) → Growing (f a))
      → Grows s ((continued r f).1)
  continued-Grows s (ok a, t) f h k = Grows-trans s t ((f a t).1) h (k a t)
  continued-Grows s (err e, t) f h k = h

  pub bind-Growing {ℓ κ} :
      {A : Type ℓ} {B : Type κ} (m : Step g A) (f : A → Step g B)
      → Growing m
      → ((a : A) → Growing (f a))
      → Growing (m >>= f)
  bind-Growing m f h k s = continued-Grows s (m s) f (h s) k

  pub now-Growing : Growing (now g)
  unfolding now
  now-Growing s = (refl, λ x h. h)

  module _ (pbs : IsPbs) where
    pub on_disk-Growing {ℓ} : {A : Type ℓ} (m : Action A) → Growing (on_disk g m)
    unfolding on_disk
    on_disk-Growing m s = (refl, λ x h. pbs.disk_apart x s.world.0 ((m s.world.0).1) s.world.1 h)

    waits : (x : Snap) → WaitsKeep (cli_of g.host) g.environ g.client (Snapshot x)
    waits x delay w h = pbs.wait_keeps x delay w h

    pub on_backup-Growing :
        (path backup_type backup_id : Bytes) (t : ℕ) (namespace : Bytes)
        → Growing (
            on_pbs g
              (backup (cli_of g.host) g.environ g.client path backup_type backup_id t namespace))
    unfolding on_pbs
    on_backup-Growing path backup_type backup_id t namespace s = (
      refl,
      λ x h.
          backup-kept (cli_of g.host) g.environ g.client (Snapshot x) path backup_type backup_id
            namespace t s.world
            (λ u w p. pbs.backup_keeps path backup_type backup_id u namespace x w p) (waits x) h,
    )

    pub on_notes-Growing :
        (backup_type backup_id : Bytes) (t : ℕ) (namespace notes : Bytes)
        → Growing (
            on_pbs g (
              update_notes
                (cli_of g.host)
                g.environ
                g.client
                backup_type
                backup_id
                t
                namespace
                notes))
    unfolding on_pbs update_notes
    on_notes-Growing backup_type backup_id t namespace notes s =
        let args = notes_args backup_type backup_id t namespace notes in
        (
          refl,
          λ x h.
              without_output-kept (cli_of g.host) g.environ g.client (Snapshot x)
                (run_with_retry (cli_of g.host) g.environ g.client args s.world)
                (run_with_retry-kept (cli_of g.host) g.environ g.client (Snapshot x) args s.world
                  (λ w p. pbs.notes_keep backup_type backup_id t namespace notes x w p) (waits x)
                  h),
        )

    -- a snapshot other than that of the mapping is kept when it is forgotten
    pub forget_mapping-keeps :
        (m : ObjectMapping) (x : Snap) (s : State g)
        → snapshot_of m ≢ x
        → Snapshot x s.world
        → Snapshot x ((forget_mapping g m s).1).world
    unfolding forget_mapping on_pbs forget snapshot_of
    forget_mapping-keeps m x s n h =
        let t = from_unix m.pbs_backup_time in
        let args = forget_args m.pbs_backup_type m.pbs_backup_id t m.namespace in
        let answer = run_with_retry (cli_of g.host) g.environ g.client args s.world in
        not_found_is_done-kept (cli_of g.host) g.environ g.client (Snapshot x)
          (without_output (cli_of g.host) g.environ g.client answer)
          (without_output-kept (cli_of g.host) g.environ g.client (Snapshot x) answer (
            run_with_retry-kept (cli_of g.host) g.environ g.client (Snapshot x) args s.world
              (λ w p. pbs.forget_keeps m.pbs_backup_type m.pbs_backup_id t m.namespace x w n p)
              (waits x) h))
