-- ===== src/Backend/Backed.antt =====
-- internal/backend/backend.go: whatever fails, a commit leaves every key with the snapshot it points
-- at.
use mathlib.Core.Path.{subst}
use pterodactyl_proxmox_back.Prelude.{
  ℤ, ℕ, suc, ◌≡◌, refl, sym, ap, ◌∙◌, ◌≢◌, inl, inr, ◌&&◌, Option, none, some, arith, if◌then◌else◌,
  Bytes,
}
use pterodactyl_proxmox_back.Prelude.Steps.{◌>>=◌, ◌>>◌, return, continued_end}
use pterodactyl_proxmox_back.Prelude.Result.{Result, ok, err, ok_injective}
use pterodactyl_proxmox_back.Store.{
  StoreError, not_found, marshal_failed, unmarshal_failed, bad_key, write_failed, Db, Outcome,
}
use pterodactyl_proxmox_back.Store.Objects.{ObjectMapping, put_object_mapping, get_object_mapping}
use pterodactyl_proxmox_back.Disk.{Disk}
use pterodactyl_proxmox_back.S3Api.{ObjectInfo, BackendError}
use pterodactyl_proxmox_back.Strings.Split.{NoByte}
use pterodactyl_proxmox_back.Backend.{
  Engine, State, Step, now, on_pbs, unmapped, with_error, on_db, or_missing, find_mapping,
}
use pterodactyl_proxmox_back.Backend.Objects.{
  info_of_mapping, forget_mapping, new_mapping, forget_old, back_up, point_at, commit_object_locked,
}
use pterodactyl_proxmox_back.Backend.Laws.{Snap, snapshot_of, IsPbs, forget_mapping-keeps}
use pterodactyl_proxmox_back.Backend.Commit.{
  mapping_at, Storable, Storable-RoundTrips, Sound, Sound-of_same, Put, origin, Sound-of_Put,
}
use pterodactyl_proxmox_back.Store.Objects.Laws.{
  get_object_mapping-put_object_mapping, put_object_mapping-err,
}
use pterodactyl_proxmox_back.Strings.{eq_bytes}
use pterodactyl_proxmox_back.Backend.Snapshots.{
  new_snap, snapshot_of-new_mapping, back_up-Growing, back_up_fresh,
}

module _ (g : Engine) where
  pub with_error_ok :
      {A : Type 0} (f : StoreError → BackendError) (r : Result StoreError A) (a : A)
      → with_error g f r ≡ ok a
      → r ≡ ok a
  with_error_ok f (ok b) a h = ap ok (ok_injective h)
  with_error_ok f (err e) a h = cc

  pub with_error_err :
      {A : Type 0} (f : StoreError → BackendError) (r : Result StoreError A) (e : BackendError)
      → with_error g f r ≡ err e
      → (x : StoreError) × (r ≡ err x)
  with_error_err f (ok b) e h = cc
  with_error_err f (err x) e h = (x, refl)

  pub or_missing-some :
      (r : Result StoreError ObjectMapping) (m : ObjectMapping)
      → or_missing g r ≡ ok (some m)
      → r ≡ ok m
  or_missing-some (ok a) m h = ground arith
  or_missing-some (err not_found) m h = ground arith
  or_missing-some (err marshal_failed) m h = cc
  or_missing-some (err unmarshal_failed) m h = cc
  or_missing-some (err bad_key) m h = cc
  or_missing-some (err write_failed) m h = cc

module _ (g : Engine) (Snapshot : Snap → Disk × g.host.Server → Type 0)
    (pbs : IsPbs g Snapshot) where
  -- the old mapping of a key is forgotten once a new one is put
  forget_old-Sound :
      (s t : State g) (b k : Bytes) (m : ObjectMapping) (old : Option ObjectMapping)
      → NoByte 0 b
      → Put g Snapshot s t b k m
      → ((o : ObjectMapping) → old ≡ some o → mapping_at g b k s ≡ ok o)
      → ((x : Snap) → Snapshot x s.world → snapshot_of m ≢ x)
      → Sound g Snapshot s
      → Sound g Snapshot t
      → Sound g Snapshot ((forget_old g old t).1)
  unfolding forget_old forget_mapping on_pbs
  forget_old-Sound s t b k m none hb put was fresh before (backed, distinct) = (backed, distinct)
  forget_old-Sound s t b k m (some o) hb put was fresh before (backed, distinct) = (
    (λ c j n hc h.
        forget_mapping-keeps g Snapshot pbs o (snapshot_of n) t (other c j n hc h)
          (backed c j n hc h)),
    distinct,
  )
    where
      other :
          (c j : Bytes) (n : ObjectMapping)
          → NoByte 0 c
          → mapping_at g c j t ≡ ok n
          → snapshot_of o ≢ snapshot_of n
      other c j n hc h e = elim (origin g Snapshot s t b k m c j n put hc h) [
        | inl (eb, ek, en) ↦
            fresh (snapshot_of o) (before.0 b k o hb (was o refl)) (ap snapshot_of en ∙ sym e)
        | inr (f, apart) ↦ apart (before.1 b k c j o n hb hc (was o refl) f e)
      ]

  put_and_forget : ObjectMapping → ObjectInfo → Option ObjectMapping → Step g ObjectInfo
  put_and_forget m info old = do
    on_db g (unmapped g) (put_object_mapping g.bolt g.object_json m)
    forget_old g old
    return info

  put_and_forget-Sound :
      (s t : State g) (m : ObjectMapping) (info : ObjectInfo) (old : Option ObjectMapping)
      → t.db ≡ s.db
      → ((x : Snap) → Snapshot x s.world → Snapshot x t.world)
      → Snapshot (snapshot_of m) t.world
      → ((x : Snap) → Snapshot x s.world → snapshot_of m ≢ x)
      → ((o : ObjectMapping) → old ≡ some o → mapping_at g m.bucket m.key s ≡ ok o)
      → Storable g m
      → NoByte 0 m.bucket
      → Sound g Snapshot s
      → Sound g Snapshot ((put_and_forget m info old t).1)
  unfolding put_and_forget on_db
  put_and_forget-Sound s t m info old same grown there fresh was storable hb sound =
      continued_end (Sound g Snapshot) (on_db g (unmapped g) put t)
        (λ _. forget_old g old >> return info)
        (λ e h.
          let (x, refused) = with_error_err g (unmapped g) ((put t.db).0) e h in
          Sound-of_same g Snapshot s ((on_db g (unmapped g) put t).1)
            (λ c j.
              put_object_mapping-err g.bolt g.object_json m x t.db c j refused
              ∙ ap (get_object_mapping g.bolt g.object_json c j) same)
            grown sound)
        (λ u h.
          let t2 = (on_db g (unmapped g) put t).1 in
          let done = with_error_ok g (unmapped g) ((put t.db).0) tt h in
          let (v, json) = Storable-RoundTrips g m t.db storable done in
          let puts : Put g Snapshot s t2 m.bucket m.key m = λ c j hc.
            get_object_mapping-put_object_mapping g.bolt g.object_json m v c j t.db json hb hc done
            ∙ ap
                (λ d.
                  if eq_bytes m.bucket c && eq_bytes m.key j
                  then ok m
                  else get_object_mapping g.bolt g.object_json c j d)
                same in
          let sound2 = Sound-of_Put g Snapshot s t2 m.bucket m.key m puts grown there fresh sound in
          let last = forget_old-Sound s t2 m.bucket m.key m old hb puts was fresh sound sound2 in
          continued_end (Sound g Snapshot) (forget_old g old t2) (λ _. return info) (λ e k. last)
            (λ w k. last))
    where
      put : Db g.bolt → Outcome g.bolt
      put = put_object_mapping g.bolt g.object_json m

  point_at-Sound :
      (bucket key etag : Bytes) (size : ℤ) (used : ℕ) (s t : State g)
      → t.db ≡ s.db
      → ((x : Snap) → Snapshot x s.world → Snapshot x t.world)
      → Snapshot (new_snap g bucket key used) t.world
      → ((x : Snap) → Snapshot x s.world → new_snap g bucket key used ≢ x)
      → ((updated : ℕ) → Storable g (new_mapping g bucket key size etag used updated))
      → NoByte 0 bucket
      → Sound g Snapshot s
      → Sound g Snapshot ((point_at g bucket key size etag used t).1)
  unfolding point_at find_mapping now put_and_forget
  point_at-Sound bucket key etag size used s t same grown there fresh json hb sound =
      continued_end (Sound g Snapshot) (find_mapping g bucket key t)
        (λ old. now g >>= λ updated.
          let m = new_mapping g bucket key size etag used updated in
          put_and_forget m (info_of_mapping key m) old)
        (λ e h.
          Sound-of_same g Snapshot s t
            (λ c j. ap (get_object_mapping g.bolt g.object_json c j) same) grown sound)
        (λ old h.
          let updated = g.clock t.ticks in
          let m = new_mapping g bucket key size etag used updated in
          let snap = snapshot_of-new_mapping g bucket key etag size used updated in
          put_and_forget-Sound s (record t { ticks = suc t.ticks }) m (info_of_mapping key m) old
            same grown (subst (λ x. Snapshot x t.world) (sym snap) there)
            (λ x p e. fresh x p (sym snap ∙ e))
            (λ o q.
              ap (get_object_mapping g.bolt g.object_json bucket key) (sym same)
              ∙ or_missing-some g (get_object_mapping g.bolt g.object_json bucket key t.db) o
                  (h ∙ ap ok q))
            (json updated) hb sound)

  -- Every key keeps a snapshot of its own: if each mapping points at a snapshot that is there, and
  -- no two at one, then so it is after a commit, whether it succeeds or fails, and wherever it
  -- fails. (One run of the command does what its documentation says, JSON gives the new mapping
  -- back as it was if it can write it, and no bucket name has a NUL byte.)
  pub commit_object_locked-Sound :
      (bucket key path etag : Bytes) (size : ℤ) (s : State g)
      → ((used updated : ℕ) → Storable g (new_mapping g bucket key size etag used updated))
      → NoByte 0 bucket
      → Sound g Snapshot s
      → Sound g Snapshot ((commit_object_locked g bucket key path size etag s).1)
  unfolding commit_object_locked
  commit_object_locked-Sound bucket key path etag size s json hb sound =
      let (same, grown) = back_up-Growing g Snapshot pbs bucket key path s in
      continued_end (Sound g Snapshot) (back_up g bucket key path s)
        (λ used. point_at g bucket key size etag used)
        (λ e h.
          Sound-of_same g Snapshot s ((back_up g bucket key path s).1)
            (λ c j. ap (get_object_mapping g.bolt g.object_json c j) same) grown sound)
        (λ used h.
          let made =
            back_up_fresh g Snapshot pbs bucket key path s {t = (back_up g bucket key path s).1}
              (pair_of (back_up g bucket key path s) used h) in
          point_at-Sound bucket key etag size used s ((back_up g bucket key path s).1) same grown
            made.0 made.1 (json used) hb sound)
    where
      pair_of :
          (r : Result BackendError ℕ × State g) (used : ℕ) → r.0 ≡ ok used → r ≡ (ok used, r.1)
      pair_of (x, t) used h = ap (λ y. (y, t)) h
