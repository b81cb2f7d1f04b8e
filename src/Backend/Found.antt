-- ===== src/Backend/Found.antt =====
-- internal/backend/backend.go: what is found at the keys after a commit, and so after a PutObject.
use pterodactyl_proxmox_back.Prelude.{
  ℤ, ℕ, suc, ◌≡◌, refl, sym, ap, ◌∙◌, inl, inr, ◌&&◌, Option, none, some, ◌∷◌, ◌++◌, if◌then◌else◌,
  Bytes,
}
use pterodactyl_proxmox_back.Prelude.Steps.{
  ◌>>=◌, ◌>>◌, return, attempt, bind_ok, bind_err, continued_end,
}
use pterodactyl_proxmox_back.Prelude.Result.{Result, ok, err, ok_injective}
use pterodactyl_proxmox_back.Store.{StoreError, Db}
use pterodactyl_proxmox_back.Store.Objects.{ObjectMapping, put_object_mapping, get_object_mapping}
use pterodactyl_proxmox_back.Store.Objects.Laws.{
  get_object_mapping-put_object_mapping, put_object_mapping-err,
}
use pterodactyl_proxmox_back.Disk.{remove}
use pterodactyl_proxmox_back.Pbs.Client.{backup, update_notes}
use pterodactyl_proxmox_back.S3Api.{ObjectInfo, BackendError}
use pterodactyl_proxmox_back.IdMap.{group_id_from_key, sanitize_namespace}
use pterodactyl_proxmox_back.Strings.{eq_bytes}
use pterodactyl_proxmox_back.Strings.Split.{NoByte}
use pterodactyl_proxmox_back.Backend.{
  cli_of, Engine, State, Step, now, on_pbs, on_disk, unmapped, on_db, find_mapping,
}
use pterodactyl_proxmox_back.Backend.Objects.{
  info_of_mapping, forget_mapping, new_mapping, forget_old, back_up, point_at, commit_object_locked,
}
use pterodactyl_proxmox_back.Backend.Commit.{mapping_at, Storable, Storable-RoundTrips}
use pterodactyl_proxmox_back.Backend.Backed.{with_error_ok, with_error_err}

module _ (g : Engine) where
  -- the database is not touched
  abbrev SameDb {ℓ} : {A : Type ℓ} → Step g A → Type 0
  SameDb m = (s : State g) → ((m s).1).db ≡ s.db

  forget_old-same : (old : Option ObjectMapping) → SameDb (forget_old g old)
  unfolding forget_old forget_mapping on_pbs
  forget_old-same none s = refl
  forget_old-same (some o) s = refl

  back_up-same : (bucket key path : Bytes) → SameDb (back_up g bucket key path)
  unfolding back_up now on_pbs on_disk
  back_up-same bucket key path s =
      let id = group_id_from_key g.sha key in
      let ns = sanitize_namespace bucket in
      let made =
        on_pbs g
          (backup (cli_of g.host) g.environ g.client path g.backup_type id (g.clock s.ticks) ns) in
      let s1 = record s { ticks = suc s.ticks } in
      continued_end (λ t. State.db t ≡ s.db) (made s1)
        (λ used. attempt (on_disk g (remove path)) >>= λ _.
          attempt (
            on_pbs g (
              update_notes (cli_of g.host) g.environ g.client g.backup_type id used ns
                (bucket ++ (b'/' ∷ key))))
          >>= λ _. return used)
        (λ e h. refl) (λ a h. refl)

  -- an error of the forget is only logged
  no_error :
      (old : Option ObjectMapping) (s : State g) (info : ObjectInfo) {e : BackendError}
      {t : State g}
      → (forget_old g old >> return info) s ≡ (err e, t)
      → ◌≡◌ {A = Result BackendError ObjectInfo} (ok info) (err e)
  unfolding forget_old
  no_error none s info h = ap (λ r. r.0) h
  no_error (some o) s info h = ap (λ r. r.0) h

  put_step : ObjectMapping → Step g (Unit {0})
  put_step m = on_db g (unmapped g) (put_object_mapping g.bolt g.object_json m)

  -- what a put of a mapping has done when it succeeded
  put_step_ok :
      (m : ObjectMapping) (s : State g) {t : State g}
      → Storable g m
      → NoByte 0 m.bucket
      → put_step m s ≡ (ok tt, t)
      → (c j : Bytes) → NoByte 0 c
      → mapping_at g c j t
        ≡ (if eq_bytes m.bucket c && eq_bytes m.key j then ok m else mapping_at g c j s)
  unfolding put_step on_db
  put_step_ok m s storable hb h c j hc =
      let done =
        with_error_ok g (unmapped g) ((put_object_mapping g.bolt g.object_json m s.db).0) tt
          (ap (λ r. r.0) h) in
      let (v, json) = Storable-RoundTrips g m s.db storable done in
      ap (λ r. get_object_mapping g.bolt g.object_json c j (State.db r.1)) (sym h)
      ∙ get_object_mapping-put_object_mapping g.bolt g.object_json m v c j s.db json hb hc done

  put_step_err :
      (m : ObjectMapping) (s : State g) (e : BackendError) (c j : Bytes)
      → (put_step m s).0 ≡ err e
      → mapping_at g c j ((put_step m s).1) ≡ mapping_at g c j s
  unfolding put_step on_db
  put_step_err m s e c j h =
      let (x, refused) =
        with_error_err g (unmapped g) ((put_object_mapping g.bolt g.object_json m s.db).0) e h in
      put_object_mapping-err g.bolt g.object_json m x s.db c j refused

  -- the outcome of a commit: the answer, and what is found at the keys
  abbrev pub Committed : Bytes → Bytes → ℤ → Bytes → ObjectInfo → State g → State g → Type 0
  Committed bucket key size etag info s t =
      (used : ℕ) × (updated : ℕ) × (info
        ≡ info_of_mapping key (new_mapping g bucket key size etag used updated))
      × ((c j : Bytes)
          → NoByte 0 c
          → mapping_at g c j t ≡ (
              if eq_bytes bucket c && eq_bytes key j
              then ok (new_mapping g bucket key size etag used updated)
              else mapping_at g c j s))

  pub commit_object_locked-Committed :
      (bucket key path etag : Bytes) (size : ℤ) (s : State g) {info : ObjectInfo} {t : State g}
      → ((used updated : ℕ) → Storable g (new_mapping g bucket key size etag used updated))
      → NoByte 0 bucket
      → commit_object_locked g bucket key path size etag s ≡ (ok info, t)
      → Committed bucket key size etag info s t
  unfolding commit_object_locked point_at now find_mapping put_step
  commit_object_locked-Committed bucket key path etag size s json hb h =
      let (used, s1, h1, k1) =
        bind_ok (back_up g bucket key path) (λ u. point_at g bucket key size etag u) s h in
      let (old, s2, h2, k2) =
        bind_ok (find_mapping g bucket key)
          (λ old. now g >>= λ updated.
            let m = new_mapping g bucket key size etag used updated in
            put_step m >> (forget_old g old >> return (info_of_mapping key m)))
          s1 k1 in
      let updated = g.clock s2.ticks in
      let m = new_mapping g bucket key size etag used updated in
      let s3 = record s2 { ticks = suc s2.ticks } in
      let (u4, s4, h4, k4) =
        bind_ok (put_step m) (λ _. forget_old g old >> return (info_of_mapping key m)) s3 k2 in
      let (u5, s5, h5, k5) =
        bind_ok (forget_old g old) (λ _. return (info_of_mapping key m)) s4 k4 in
      let same1 : s1.db ≡ s.db = ap (λ r. State.db r.1) (sym h1) ∙ back_up-same bucket key path s in
      let same2 : s2.db ≡ s1.db = ap (λ r. State.db r.1) (sym h2) in
      let same5 : s5.db ≡ s4.db = ap (λ r. State.db r.1) (sym h5) ∙ forget_old-same old s4 in
      (
        used,
        updated,
        sym (ok_injective (ap (λ r. r.0) k5)),
        λ c j hc.
            ap (λ r. get_object_mapping g.bolt g.object_json c j (State.db r.1)) (sym k5)
            ∙ ap (get_object_mapping g.bolt g.object_json c j) same5
            ∙ put_step_ok m s3 (json used updated) hb h4 c j hc
            ∙ ap
                (λ d.
                  if eq_bytes bucket c && eq_bytes key j
                  then ok m
                  else get_object_mapping g.bolt g.object_json c j d)
                (same2 ∙ same1),
      )

  -- a commit that fails leaves what is found at the keys
  pub commit_object_locked_failed :
      (bucket key path etag : Bytes) (size : ℤ) (s : State g) {e : BackendError} {t : State g}
      → commit_object_locked g bucket key path size etag s ≡ (err e, t)
      → (c j : Bytes) → mapping_at g c j t ≡ mapping_at g c j s
  unfolding commit_object_locked point_at now find_mapping put_step
  commit_object_locked_failed bucket key path etag size s {e = e} {t = t} h c j =
      let got : Db g.bolt → Result StoreError ObjectMapping =
        get_object_mapping g.bolt g.object_json c j in
      elim (bind_err (back_up g bucket key path) (λ u. point_at g bucket key size etag u) s h) [
        | inl h1 ↦ ap (λ r. got (State.db r.1)) (sym h1) ∙ ap got (back_up-same bucket key path s)
        | inr (used, s1, h1, k1) ↦
            let same1 =
              ap (λ r. got (State.db r.1)) (sym h1) ∙ ap got (back_up-same bucket key path s) in
            pointed bucket key etag size used s1 t e k1 ∙ same1
      ]
    where
      pointed :
          (bucket key etag : Bytes) (size : ℤ) (used : ℕ) (s t : State g) (e : BackendError)
          → point_at g bucket key size etag used s ≡ (err e, t)
          → mapping_at g c j t ≡ mapping_at g c j s
      pointed bucket key etag size used s t e h =
          elim (bind_err (find_mapping g bucket key)
            (λ old. now g >>= λ updated.
              let m = new_mapping g bucket key size etag used updated in
              put_step m >> (forget_old g old >> return (info_of_mapping key m)))
            s h) [
              | inl h1 ↦
                  ap (λ r. get_object_mapping g.bolt g.object_json c j (State.db r.1)) (sym h1)
              | inr (old, s2, h2, k2) ↦
                  let s3 = record s2 { ticks = suc s2.ticks } in
                  let m = new_mapping g bucket key size etag used (g.clock s2.ticks) in
                  let same2 =
                    ap (λ r. get_object_mapping g.bolt g.object_json c j (State.db r.1)) (sym h2) in
                  elim (bind_err (put_step m)
                    (λ _. forget_old g old >> return (info_of_mapping key m)) s3 k2) [
                      | inl h4 ↦
                          ap (λ r. get_object_mapping g.bolt g.object_json c j (State.db r.1))
                            (sym h4)
                          ∙ put_step_err m s3 e c j (ap (λ r. r.0) h4)
                          ∙ same2
                      | inr (u, s4, h4, k4) ↦ cc (no_error old s4 (info_of_mapping key m) k4)
                    ]
            ]
