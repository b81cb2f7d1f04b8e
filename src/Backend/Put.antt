-- ===== src/Backend/Put.antt =====
-- internal/backend/backend.go: what PutObject has stored, and what a failed one leaves.
use pterodactyl_proxmox_back.Prelude.{
  pos, ℕ, ◌≡◌, refl, sym, ap, ◌∙◌, inl, inr, Bool, true, false, ◌&&◌, if◌then◌else◌, &&-eq-true,
  Bytes, codes, length,
}
use pterodactyl_proxmox_back.Prelude.Steps.{continued, return, bind_ok, bind_err}
use pterodactyl_proxmox_back.Prelude.Result.{Result, ok, err, ok_injective}
use pterodactyl_proxmox_back.Store.{StoreError}
use pterodactyl_proxmox_back.Store.Objects.{ObjectMapping, get_object_mapping}
use pterodactyl_proxmox_back.Disk.{OsError, Disk, Action}
use pterodactyl_proxmox_back.Stage.{WriteResult, write_to_temp}
use pterodactyl_proxmox_back.Stage.Temp.{write_to_temp_ok}
use pterodactyl_proxmox_back.S3Api.{ObjectInfo, BackendError, Stream}
use pterodactyl_proxmox_back.Strings.{eq_bytes}
use pterodactyl_proxmox_back.Strings.Hex.{hex}
use pterodactyl_proxmox_back.Strings.Equal.{eq_bytes_iff}
use pterodactyl_proxmox_back.Strings.Split.{NoByte}
use pterodactyl_proxmox_back.Backend.{
  Engine, State, as_failure, on_disk, map_not_found, with_error, from_db,
}
use pterodactyl_proxmox_back.Backend.Objects.{
  info_of_mapping, new_mapping, commit_object_locked, put_object, head_object,
}
use pterodactyl_proxmox_back.Backend.Commit.{mapping_at, Storable}
use pterodactyl_proxmox_back.Backend.Found.{
  Committed, commit_object_locked-Committed, commit_object_locked_failed,
}

module _ (g : Engine) where
  -- what HeadObject answers, from what is found at the key
  abbrev answered : Bytes → Result StoreError ObjectMapping → Result BackendError ObjectInfo
  answered key (ok m) = ok (info_of_mapping key m)
  answered key (err e) = err (map_not_found g e)

  head_object-answered :
      (bucket key : Bytes) (s : State g)
      → (head_object g bucket key s).0 ≡ answered key (mapping_at g bucket key s)
  unfolding head_object from_db
  head_object-answered bucket key s = of_result key (mapping_at g bucket key s) s
    where
      of_result :
          (key : Bytes) (r : Result StoreError ObjectMapping) (s : State g)
          → (continued {B = ObjectInfo}
              (with_error g (map_not_found g) r, s)
              (λ m. return (info_of_mapping key m))).0
            ≡ answered key r
      of_result key (ok m) s = refl
      of_result key (err e) s = refl

  answered_if :
      (key j : Bytes) (b : Bool) (m : ObjectMapping) (r : Result StoreError ObjectMapping)
      → ((b ≡ true) → key ≡ j)
      → answered j (if b then ok m else r)
        ≡ (if b then ok (info_of_mapping key m) else answered j r)
  answered_if key j true m r h = ap (λ k. ok (info_of_mapping k m)) (sym (h refl))
  answered_if key j false m r h = refl

  pub on_disk_ok :
      {A : Type 0} (m : Action A) (s : State g) {a : A} {t : State g}
      → on_disk g m s ≡ (ok a, t)
      → (m s.world.0 ≡ (ok a, t.world.0)) × (t.db ≡ s.db)
  unfolding on_disk
  on_disk_ok m s {a = a} {t = t} h = (
    both (m s.world.0) a t.world.0 (ap (λ r. r.0) h) (ap (λ r. (State.world r.1).0) h),
    ap (λ r. State.db r.1) (sym h),
  )
    where
      both :
          {A : Type 0} (r : Result OsError A × Disk) (a : A) (d : Disk)
          → as_failure g r.0 ≡ ok a
          → r.1 ≡ d
          → r ≡ (ok a, d)
      both (ok b, e) a d h k = cc (ok_injective h, k)
      both (err x, e) a d h k = cc h

  abbrev sum_of : Stream → Bytes
  sum_of body = hex (g.md5_sum body.content)

  -- JSON gives back every mapping that this put can store, at any time at which it can write one
  abbrev pub StorablePut : Bytes → Bytes → Stream → Type 0
  StorablePut bucket key body =
      (used updated : ℕ)
      → Storable g (new_mapping g bucket key (pos (length body.content)) (sum_of body) used updated)

  -- A put that succeeds has read the whole body, and answers its length and its MD5 sum. From then
  -- on HeadObject gives this answer at the key, and at any other key what it gave before. (JSON
  -- gives the new mapping back as it was if it can write it, and no bucket name has a NUL byte.)
  pub head_object-put_object :
      (bucket key : Bytes) (body : Stream) (s : State g) {info : ObjectInfo} {t : State g}
      → StorablePut bucket key body
      → NoByte 0 bucket
      → put_object g bucket key body s ≡ (ok info, t)
      → (body.is_broken ≡ false)
        × (info.size ≡ pos (length body.content))
        × (info.etag ≡ hex (g.md5_sum body.content))
        × ((c j : Bytes)
            → NoByte 0 c
            → (head_object g c j t).0
              ≡ (if eq_bytes bucket c && eq_bytes key j then ok info else (head_object g c j s).0))
  unfolding put_object
  head_object-put_object bucket key body s {info = info} {t = t} json hb h =
      let write = write_to_temp g.md5_sum g.root (codes "puts") (codes "put-*.tmp") body in
      let (r, s1, h1, k1) =
        bind_ok (on_disk g write) (λ r. commit_object_locked g bucket key r.path r.size r.md5) s
          h in
      let (wrote, same_db) = on_disk_ok write s h1 in
      let (result, whole, was_free, there) =
        write_to_temp_ok g.md5_sum g.root (codes "puts") (codes "put-*.tmp") body s.world.0 wrote in
      let size : r.size ≡ pos (length body.content) = ap (λ x. WriteResult.size x) result in
      let sum : r.md5 ≡ sum_of body = ap (λ x. WriteResult.md5 x) result in
      let (used, updated, answer, at_keys) =
        committed bucket key body r s1 t info json hb size sum k1 in
      let m = new_mapping g bucket key (pos (length body.content)) (sum_of body) used updated in
      (
        whole,
        ap (λ x. ObjectInfo.size x) answer,
        ap (λ x. ObjectInfo.etag x) answer,
        λ c j hc.
            head_object-answered c j t
            ∙ ap (answered j) (at_keys c j hc)
            ∙ answered_if key j (eq_bytes bucket c && eq_bytes key j) m (mapping_at g c j s1) (λ e.
              (eq_bytes_iff key j).0 ((&&-eq-true (eq_bytes bucket c) (eq_bytes key j) e).1))
            ∙ rw (sym answer) (
                ap (λ x. if eq_bytes bucket c && eq_bytes key j then ok info else x)
                  (ap (answered j) (ap (get_object_mapping g.bolt g.object_json c j) same_db)
                    ∙ sym (head_object-answered c j s))),
      )
    where
      committed :
          (bucket key : Bytes) (body : Stream) (r : WriteResult) (s t : State g) (info : ObjectInfo)
          → StorablePut bucket key body
          → NoByte 0 bucket
          → r.size ≡ pos (length body.content)
          → r.md5 ≡ sum_of body
          → commit_object_locked g bucket key r.path r.size r.md5 s ≡ (ok info, t)
          → Committed g bucket key (pos (length body.content)) (sum_of body) info s t
      committed bucket key body r s t info json hb size sum h =
          commit_object_locked-Committed g bucket key r.path (sum_of body)
            (pos (length body.content)) s json hb (rw (size, sum) at h)

  -- A put that fails leaves what is found at the keys as it was.
  pub put_object_failed :
      (bucket key : Bytes) (body : Stream) (s : State g) {e : BackendError} {t : State g}
      → put_object g bucket key body s ≡ (err e, t)
      → (c j : Bytes) → mapping_at g c j t ≡ mapping_at g c j s
  unfolding put_object on_disk
  put_object_failed bucket key body s h c j =
      let write = write_to_temp g.md5_sum g.root (codes "puts") (codes "put-*.tmp") body in
      let got : State g → Result StoreError ObjectMapping = λ t. mapping_at g c j t in
      elim (bind_err (on_disk g write) (λ r. commit_object_locked g bucket key r.path r.size r.md5)
        s h) [
          | inl h1 ↦ ap (λ r. got r.1) (sym h1)
          | inr (r, s1, h1, k1) ↦
              commit_object_locked_failed g bucket key r.path r.md5 r.size s1 k1 c j
              ∙ ap (λ r. got r.1) (sym h1)
        ]
