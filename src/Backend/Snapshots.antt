-- ===== src/Backend/Snapshots.antt =====
-- internal/backend/backend.go: a new snapshot is made beside those that are there.
use mathlib.Core.Path.{subst}
use pterodactyl_proxmox_back.Prelude.{
  ℤ, pos, ℕ, ◌/◌, ◌≡◌, refl, sym, ap, ◌∙◌, ◌≢◌, ◌∷◌, ◌++◌, arith, Bytes,
}
use pterodactyl_proxmox_back.Prelude.Int.{pos_part, ◌+ℤ◌, ◌-ℤ◌}
use pterodactyl_proxmox_back.Pbs.Client.{snapshot_id, run, backup, update_notes}
use pterodactyl_proxmox_back.Pbs.Time.{second, unix_epoch, unix, from_unix, format_time}
use pterodactyl_proxmox_back.Prelude.Steps.{◌>>=◌, return, attempt, bind_ok}
use pterodactyl_proxmox_back.Prelude.Result.{Result, ok, err, ok_injective}
use pterodactyl_proxmox_back.Disk.{Disk, remove}
use pterodactyl_proxmox_back.Pbs.{PbsError}
use pterodactyl_proxmox_back.IdMap.{group_id_from_key, sanitize_namespace}
use pterodactyl_proxmox_back.Backend.{cli_of, Engine, State, Step, now, as_failure, on_pbs, on_disk}
use pterodactyl_proxmox_back.Backend.Objects.{new_mapping, back_up}
use pterodactyl_proxmox_back.Backend.Laws.{
  Snap, snapshot_of, IsPbs, Growing, bind-Growing, now-Growing, on_disk-Growing, on_backup-Growing,
  on_notes-Growing,
}
use pterodactyl_proxmox_back.Pbs.Keeps.{backup-made}

sub_add : (n e : ℕ) → pos_part (pos n -ℤ pos e +ℤ pos e) ≡ n
unfolding ◌-ℤ◌ ◌+ℤ◌
sub_add n e = ground arith

format_time-same : (t u : ℕ) → t / second ≡ u / second → format_time t ≡ format_time u
unfolding format_time
format_time-same t u h = rw h refl

from_unix-unix : (t : ℕ) → from_unix (unix t) / second ≡ t / second
unfolding from_unix unix
from_unix-unix t = rw (sub_add (t / second) unix_epoch) (omega arith)

-- the time that a mapping keeps names the snapshot that was made
pub snapshot_id-unix :
    (backup_type backup_id : Bytes) (t : ℕ)
    → snapshot_id backup_type backup_id (from_unix (unix t)) ≡ snapshot_id backup_type backup_id t
unfolding snapshot_id
snapshot_id-unix backup_type backup_id t =
    rw (format_time-same (from_unix (unix t)) t (from_unix-unix t)) refl

module _ (g : Engine) where
  -- the snapshot of a commit at a time
  abbrev pub new_snap : Bytes → Bytes → ℕ → Snap
  new_snap bucket key used =
      (sanitize_namespace bucket, snapshot_id g.backup_type (group_id_from_key g.sha key) used)

  pub snapshot_of-new_mapping :
      (bucket key etag : Bytes) (size : ℤ) (used updated : ℕ)
      → snapshot_of (new_mapping g bucket key size etag used updated) ≡ new_snap bucket key used
  unfolding snapshot_of
  snapshot_of-new_mapping bucket key etag size used updated =
      ap (λ i. (sanitize_namespace bucket, i))
        (snapshot_id-unix g.backup_type (group_id_from_key g.sha key) used)

module _ (g : Engine) (Snapshot : Snap → Disk × g.host.Server → Type 0)
    (pbs : IsPbs g Snapshot) where
  after_backup : Bytes → Bytes → Bytes → ℕ → Step g ℕ
  after_backup bucket key path used = do
    _ ← attempt (on_disk g (remove path))
    _ ← attempt (
        on_pbs g (
          update_notes (cli_of g.host) g.environ g.client g.backup_type
            (group_id_from_key g.sha key) used (sanitize_namespace bucket)
            (bucket ++ (b'/' ∷ key))))
    return used

  attempt-Growing {ℓ} :
      {A : Type ℓ} (m : Step g A) → Growing g Snapshot m → Growing g Snapshot (attempt m)
  attempt-Growing m h s = h s

  after_backup-Growing :
      (bucket key path : Bytes) (used : ℕ) → Growing g Snapshot (after_backup bucket key path used)
  unfolding after_backup
  after_backup-Growing bucket key path used =
      let id = group_id_from_key g.sha key in
      let ns = sanitize_namespace bucket in
      let noted = on_pbs g (
        update_notes (cli_of g.host) g.environ g.client g.backup_type id used ns
          (bucket ++ (b'/' ∷ key))) in
      bind-Growing g Snapshot (attempt (on_disk g (remove path)))
        (λ _. attempt noted >>= λ _. return used)
        (attempt-Growing (on_disk g (remove path)) (on_disk-Growing g Snapshot pbs (remove path)))
        (λ _.
          bind-Growing g Snapshot (attempt noted) (λ _. return used)
            (attempt-Growing noted
              (on_notes-Growing g Snapshot pbs g.backup_type id used ns (bucket ++ (b'/' ∷ key))))
            (λ _ s. (refl, λ x h. h)))

  pub back_up-Growing : (bucket key path : Bytes) → Growing g Snapshot (back_up g bucket key path)
  unfolding back_up after_backup
  back_up-Growing bucket key path =
      let id = group_id_from_key g.sha key in
      let ns = sanitize_namespace bucket in
      let made : ℕ → Step g ℕ =
        λ t. on_pbs g (backup (cli_of g.host) g.environ g.client path g.backup_type id t ns) in
      bind-Growing g Snapshot (now g) (λ t. made t >>= after_backup bucket key path)
        (now-Growing g Snapshot)
        (λ t.
          bind-Growing g Snapshot (made t) (after_backup bucket key path)
            (on_backup-Growing g Snapshot pbs path g.backup_type id t ns)
            (after_backup-Growing bucket key path))

  after_backup_value :
      (bucket key path : Bytes) (used : ℕ) (s : State g)
      → (after_backup bucket key path used s).0 ≡ ok used
  unfolding after_backup
  after_backup_value bucket key path used s = refl

  both :
      {W : Type 0} {E : Type 0} {A : Type 0} (r : Result E A × W) (a : A) (w : W)
      → r.0 ≡ ok a
      → r.1 ≡ w
      → r ≡ (ok a, w)
  both (x, y) a w h k = cc (h, k)

  as_failure_ok : {E A : Type 0} (r : Result E A) (a : A) → as_failure g r ≡ ok a → r ≡ ok a
  as_failure_ok (ok b) a h = ap ok (ok_injective h)
  as_failure_ok (err e) a h = cc

  on_pbs_ok :
      {A : Type 0} (m : Disk × g.host.Server → Result PbsError A × (Disk × g.host.Server))
      (s : State g) {a : A} {t : State g}
      → on_pbs g m s ≡ (ok a, t)
      → m s.world ≡ (ok a, t.world)
  unfolding on_pbs
  on_pbs_ok m s {a = a} {t = t} h =
      both (m s.world) a t.world (as_failure_ok ((m s.world).0) a (ap (λ r. r.0) h))
        (ap (λ r. State.world r.1) h)

  -- a backup that was made is there at its end, and was not there before
  pub back_up_fresh :
      (bucket key path : Bytes) (s : State g) {used : ℕ} {t : State g}
      → back_up g bucket key path s ≡ (ok used, t)
      → Snapshot (new_snap g bucket key used) t.world
        × ((x : Snap) → Snapshot x s.world → new_snap g bucket key used ≢ x)
  unfolding back_up after_backup now
  back_up_fresh bucket key path s {used = used} {t = t} h =
      let id = group_id_from_key g.sha key in
      let ns = sanitize_namespace bucket in
      let made : ℕ → Step g ℕ =
        λ t. on_pbs g (backup (cli_of g.host) g.environ g.client path g.backup_type id t ns) in
      let (t0, s1, h1, k1) = bind_ok (now g) (λ t. made t >>= after_backup bucket key path) s h in
      let (used0, s2, h2, k2) = bind_ok (made t0) (after_backup bucket key path) s1 k1 in
      let same : used0 ≡ used = ok_injective (ap (λ r. r.0) k2) in
      let world : s.world ≡ s1.world = ap (λ r. State.world r.1) h1 in
      let run =
        on_pbs_ok (backup (cli_of g.host) g.environ g.client path g.backup_type id t0 ns) s1 h2 in
      let grown = (after_backup-Growing bucket key path used0 s2).1 in
      (
        subst (λ u. Snapshot (new_snap g bucket key u) t.world) same
            (subst (λ r. Snapshot (new_snap g bucket key used0) (State.world r.1)) k2
              (grown (new_snap g bucket key used0)
                (there path id ns t0 used0 s1.world s2.world run))),
        λ x p e.
            free path id ns t0 used0 s1.world s2.world run x (subst (Snapshot x) world p)
              (ap (λ u. new_snap g bucket key u) same ∙ e),
      )
    where
      there :
          (path id ns : Bytes) (t0 used0 : ℕ) (w u : Disk × g.host.Server)
          → backup (cli_of g.host) g.environ g.client path g.backup_type id t0 ns w ≡ (ok used0, u)
          → Snapshot (ns, snapshot_id g.backup_type id used0) u
      there path id ns t0 used0 w u run =
          let (v, out, p, last) =
            backup-made (cli_of g.host) g.environ g.client (λ x. Unit) path g.backup_type id ns t0
              used0 w u (λ t w p. tt) (λ d w p. tt) tt run in
          pbs.made_by_backup path g.backup_type id used0 ns v u out last

      free :
          (path id ns : Bytes) (t0 used0 : ℕ) (w u : Disk × g.host.Server)
          → backup (cli_of g.host) g.environ g.client path g.backup_type id t0 ns w ≡ (ok used0, u)
          → (x : Snap) → Snapshot x w
          → (ns, snapshot_id g.backup_type id used0) ≢ x
      free path id ns t0 used0 w u run x p e =
          let (v, out, q, last) =
            backup-made (cli_of g.host) g.environ g.client (Snapshot x) path g.backup_type id ns t0
              used0 w u (λ t w p. pbs.backup_keeps path g.backup_type id t ns x w p)
              (λ d w p. pbs.wait_keeps x d w p) p run in
          pbs.free_before_backup path g.backup_type id used0 ns v u out last
            (subst (λ y. Snapshot y v) (sym e) q)
