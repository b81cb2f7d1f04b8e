-- ===== src/Backend/Invariant.antt =====
-- internal/backend/backend.go: the operations that change objects leave every key with a snapshot
-- of its own.
use mathlib.Core.Path.{subst}
use pterodactyl_proxmox_back.Prelude.{
  pos, ◌≡◌, sym, ap, ◌∙◌, ◌≢◌, inl, inr, ◌&&◌, Option, none, some, if◌then◌else◌, Bool-cases, Bytes,
  codes, length,
}
use pterodactyl_proxmox_back.Prelude.Steps.{◌>>◌, fail, bind_ok, continued_end}
use pterodactyl_proxmox_back.Backend.Put.{on_disk_ok, StorablePut}
use pterodactyl_proxmox_back.Stage.{WriteResult, write_to_temp}
use pterodactyl_proxmox_back.Stage.Temp.{write_to_temp_ok}
use pterodactyl_proxmox_back.Strings.Hex.{hex}
use pterodactyl_proxmox_back.S3Api.{BackendError, err_not_found, Stream}
use pterodactyl_proxmox_back.Prelude.Result.{Result, ok, err}
use pterodactyl_proxmox_back.Store.{not_found}
use pterodactyl_proxmox_back.Store.Objects.{
  ObjectMapping, get_object_mapping, delete_object_mapping,
}
use pterodactyl_proxmox_back.Disk.{Disk}
use pterodactyl_proxmox_back.Strings.{eq_bytes}
use pterodactyl_proxmox_back.Strings.Split.{NoByte}
use pterodactyl_proxmox_back.Backend.{
  Engine, State, on_pbs, on_disk, map_not_found, unmapped, on_db, from_db, or_missing, find_mapping,
}
use pterodactyl_proxmox_back.Backend.Objects.{
  forget_mapping, new_mapping, commit_object_locked, put_object, cleanup_uploads,
  abort_matching_uploads, delete_found, delete_object,
}
use pterodactyl_proxmox_back.Backend.Laws.{
  Snap, snapshot_of, IsPbs, on_disk-Growing, forget_mapping-keeps,
}
use pterodactyl_proxmox_back.Backend.Commit.{mapping_at, Storable, Sound, Sound-of_same, another}
use pterodactyl_proxmox_back.Backend.Backed.{
  with_error_ok, or_missing-some, commit_object_locked-Sound,
}
use pterodactyl_proxmox_back.Store.Multipart.{find_uploads_by_bucket_key}
use pterodactyl_proxmox_back.Store.Objects.Deletes.{get_object_mapping-delete_object_mapping}

module _ (g : Engine) (Snapshot : Snap → Disk × g.host.Server → Type 0)
    (pbs : IsPbs g Snapshot) where
  -- PutObject leaves every key with a snapshot of its own, whether it succeeds or fails. (One run
  -- of the command does what its documentation says, JSON gives the new mapping back as it was if it
  -- can write it, and no bucket name has a NUL byte.)
  pub put_object-Sound :
      (bucket key : Bytes) (body : Stream) (s : State g)
      → StorablePut g bucket key body
      → NoByte 0 bucket
      → Sound g Snapshot s
      → Sound g Snapshot ((put_object g bucket key body s).1)
  unfolding put_object
  put_object-Sound bucket key body s json hb sound =
      let write = write_to_temp g.md5_sum g.root (codes "puts") (codes "put-*.tmp") body in
      let s1 = (on_disk g write s).1 in
      let (same, grown) = on_disk-Growing g Snapshot pbs write s in
      let sound1 =
        Sound-of_same g Snapshot s s1 (λ c j. ap (get_object_mapping g.bolt g.object_json c j) same)
          grown sound in
      continued_end (Sound g Snapshot) (on_disk g write s)
        (λ r. commit_object_locked g bucket key r.path r.size r.md5) (λ e h. sound1)
        (λ r h.
          let (wrote, same_db) = on_disk_ok g write s (pair_of (on_disk g write s) r h) in
          let result =
            (write_to_temp_ok g.md5_sum g.root (codes "puts") (codes "put-*.tmp") body s.world.0
              wrote).0 in
          let size : pos (length body.content) ≡ r.size =
            sym (ap (λ x. WriteResult.size x) result) in
          let sum : hex (g.md5_sum body.content) ≡ r.md5 =
            sym (ap (λ x. WriteResult.md5 x) result) in
          commit_object_locked-Sound g Snapshot pbs bucket key r.path r.md5 r.size s1
            (λ used updated.
              subst (λ z. Storable g (new_mapping g bucket key z r.md5 used updated)) size
                (subst
                  (λ z.
                    Storable g
                      (new_mapping g bucket key (pos (length body.content)) z used updated))
                  sum (json used updated)))
            hb sound1)
    where
      pair_of :
          (r : Result BackendError WriteResult × State g) (a : WriteResult)
          → r.0 ≡ ok a
          → r ≡ (ok a, r.1)
      pair_of (x, t) a h = ap (λ y. (y, t)) h

  -- a mapping that is left when another was deleted
  deleted-Sound :
      (s t : State g) (b k : Bytes) (m : ObjectMapping)
      → NoByte 0 b
      → mapping_at g b k s ≡ ok m
      → ((c j : Bytes)
          → NoByte 0 c
          → mapping_at g c j t
            ≡ (if eq_bytes b c && eq_bytes k j then err not_found else mapping_at g c j s))
      → ((x : Snap) → snapshot_of m ≢ x → Snapshot x s.world → Snapshot x t.world)
      → Sound g Snapshot s
      → Sound g Snapshot t
  deleted-Sound s t b k m hb f gone kept (backed, distinct) = (
    (λ c j n hc h.
        let (was, other) = left c j n hc h in
        kept (snapshot_of n) (λ e. other (distinct b k c j m n hb hc f was e))
          (backed c j n hc was)),
    (λ c j d i n o hc hd h1 h2 e.
        distinct c j d i n o hc hd ((left c j n hc h1).0) ((left d i o hd h2).0) e),
  )
    where
      left :
          (c j : Bytes) (n : ObjectMapping)
          → NoByte 0 c
          → mapping_at g c j t ≡ ok n
          → (mapping_at g c j s ≡ ok n) × ¬ ((b ≡ c) × (k ≡ j))
      left c j n hc h = elim (Bool-cases (eq_bytes b c && eq_bytes k j)) [
        | inl e ↦ cc (rw e at (sym (gone c j hc) ∙ h))
        | inr e ↦
            (rw e at (sym (gone c j hc) ∙ h), λ (p, q). cc (e, another g Snapshot b k c j p q))
      ]

  nothing_deleted :
      (bucket key : Bytes) (s : State g) {u : Unit {0}} {t : State g}
      → abort_matching_uploads g bucket key s ≡ (ok u, t)
      → ⊥
  unfolding abort_matching_uploads
  nothing_deleted bucket key s h =
      let (us, s1, h1, k1) =
        bind_ok
          (from_db g (unmapped g) (find_uploads_by_bucket_key g.bolt g.upload_json bucket key))
          (λ us. cleanup_uploads g us >> fail err_not_found) s h in
      let (w, s2, h2, k2) = bind_ok (cleanup_uploads g us) (λ _. fail err_not_found) s1 k1 in
      cc (ap (λ r. r.0) k2)

  -- A DeleteObject that succeeds has deleted a mapping, of which no read finds anything any more,
  -- while other keys are as before, and each of them still has a snapshot of its own. (One run of
  -- the command does what its documentation says, and no bucket name has a NUL byte.)
  pub delete_object-Sound :
      (bucket key : Bytes) (s : State g) {t : State g}
      → NoByte 0 bucket
      → Sound g Snapshot s
      → delete_object g bucket key s ≡ (ok tt, t)
      → ((c j : Bytes)
          → NoByte 0 c
          → mapping_at g c j t
            ≡ (if eq_bytes bucket c && eq_bytes key j then err not_found else mapping_at g c j s))
        × Sound g Snapshot t
  unfolding delete_object find_mapping on_db forget_mapping on_pbs
  delete_object-Sound bucket key s {t = t} hb sound h =
      let (old, s1, h1, k1) = bind_ok (find_mapping g bucket key) (delete_found g bucket key) s h in
      let same1 : s ≡ s1 = ap (λ r. r.1) h1 in by_old old s1 k1 same1 (ap (λ r. r.0) h1)
    where
      kept_until :
          (x : Snap) (m : ObjectMapping) (s1 s2 : State g) {w : Unit {0}}
          → snapshot_of m ≢ x
          → Snapshot x s1.world
          → forget_mapping g m s1 ≡ (ok w, s2)
          → on_db g (map_not_found g) (delete_object_mapping g.bolt g.object_json bucket key) s2
            ≡ (ok tt, t)
          → Snapshot x t.world
      kept_until x m s1 s2 n p h2 k2 =
          subst (λ r. Snapshot x (State.world r.1)) k2
            (subst (λ r. Snapshot x (State.world r.1)) h2
              (forget_mapping-keeps g Snapshot pbs m x s1 n p))

      by_old :
          (old : Option ObjectMapping) (s1 : State g)
          → delete_found g bucket key old s1 ≡ (ok tt, t)
          → s ≡ s1
          → or_missing g (mapping_at g bucket key s) ≡ ok old
          → ((c j : Bytes)
              → NoByte 0 c
              → mapping_at g c j t ≡ (
                  if eq_bytes bucket c && eq_bytes key j
                  then err not_found
                  else mapping_at g c j s))
            × Sound g Snapshot t
      by_old none s1 k same f = elim (nothing_deleted bucket key s1 k) [ ]
      by_old (some m) s1 k same f =
          let del = delete_object_mapping g.bolt g.object_json bucket key in
          let (w, s2, h2, k2) =
            bind_ok (forget_mapping g m) (λ _. on_db g (map_not_found g) del) s1 k in
          let done = with_error_ok g (map_not_found g) ((del s2.db).0) tt (ap (λ r. r.0) k2) in
          let same_db : s2.db ≡ s.db =
            ap (λ r. State.db r.1) (sym h2) ∙ ap (λ x. State.db x) (sym same) in
          let gone : (c j : Bytes)
              → NoByte 0 c
              → mapping_at g c j t ≡ (
                  if eq_bytes bucket c && eq_bytes key j
                  then err not_found
                  else mapping_at g c j s) =
            λ c j hc.
              ap (λ r. mapping_at g c j r.1) (sym k2)
              ∙ (get_object_mapping-delete_object_mapping g.bolt g.object_json bucket key c j s2.db
                  hb hc done).1
              ∙ ap
                  (λ d.
                    if eq_bytes bucket c && eq_bytes key j
                    then err not_found
                    else get_object_mapping g.bolt g.object_json c j d)
                  same_db in
          (
            gone,
            deleted-Sound s t bucket key m hb (or_missing-some g (mapping_at g bucket key s) m f)
                gone
                (λ x n p.
                  kept_until x m s1 s2 n (subst (λ y. Snapshot x (State.world y)) same p) h2 k2)
                sound,
          )
