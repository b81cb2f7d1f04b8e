-- ===== src/Stage/Gc/Chosen.antt =====
-- internal/stage/gc.go: which uploads a sweep has chosen.
use pterodactyl_proxmox_back.Prelude.{
  ◌≡◌, ◌∙◌, ◌≢◌, ◌⊎◌, inl, inr, Bool, true, false, some, List, [], ◌∷◌, arith, Bool-cases, Bytes,
  All,
}
use pterodactyl_proxmox_back.Strings.{eq_bytes, lt_bytes}
use pterodactyl_proxmox_back.Strings.Equal.{eq_bytes_iff, lt_bytes_irrefl}
use pterodactyl_proxmox_back.Strings.Split.{NoByte}
use pterodactyl_proxmox_back.Bolt.{Bolt}
use pterodactyl_proxmox_back.Bolt.Lists.{lookup, Above, IsSorted}
use pterodactyl_proxmox_back.Store.{Json}
use pterodactyl_proxmox_back.Store.Multipart.{MultipartUpload, Pairs}
use pterodactyl_proxmox_back.Store.Multipart.Uploads.{passing, Records}

-- uploads are stored under their ids, which have no slash
abbrev pub Named : Pairs → List MultipartUpload → Type 0
Named [] [] = Unit
Named ((k, v) ∷ l) (u ∷ us) = (k ≡ u.upload_id) × NoByte b'/' u.upload_id × Named l us
Named _ _ = ⊥

abbrev pub OtherIds : Bytes → List MultipartUpload → Type 0
OtherIds b us =
    All (λ u. NoByte b'/' (MultipartUpload.upload_id u) × (MultipartUpload.upload_id u ≢ b)) us

above_ne : (b k : Bytes) → lt_bytes b k ≡ true → k ≢ b
above_ne b k h e = cc (rw e at h, lt_bytes_irrefl b)

passing-Above :
    (test : MultipartUpload → Bool) (b : Bytes) (l : Pairs) (us : List MultipartUpload)
    → Above b l
    → Named l us
    → OtherIds b (passing test us)
unfolding passing
passing-Above test b [] [] a n = tt
passing-Above test b [] (u ∷ us) a n = elim n [ ]
passing-Above test b (x ∷ l) [] a n = elim n [ ]
passing-Above test b ((k, v) ∷ l) (u ∷ us) a (n, ns, nl) =
    let rest = passing-Above test b l us a.1 nl in
    elim (Bool-cases (test u)) [
      | inl e ↦ rw e ((ns, (λ h. above_ne b k a.0 (n ∙ h))), rest)
      | inr e ↦ rw e rest
    ]

abbrev pub Among : Bytes → List MultipartUpload → Type 0
Among b [] = ⊥
Among b (u ∷ us) = (u.upload_id ≡ b) ⊎ Among b us

abbrev pub NoSlashes : List MultipartUpload → Type 0
NoSlashes us = All (λ u. NoByte b'/' (MultipartUpload.upload_id u)) us

module _ (bolt : Bolt) (json : Json MultipartUpload) where
  -- an upload that does not pass is not among those that do, by its id
  pub passing-other :
      (test : MultipartUpload → Bool) (b v : Bytes) (u : MultipartUpload) (l : Pairs)
      (us : List MultipartUpload)
      → IsSorted l
      → Records bolt json l us
      → Named l us
      → lookup b l ≡ some v
      → json.unmarshal v ≡ some u
      → test u ≡ false
      → OtherIds b (passing test us)
  unfolding passing lookup
  passing-other test b v u [] us s r n f j t = cc
  passing-other test b v u (x ∷ l) [] s r n f j t = elim n [ ]
  passing-other test b v u ((k, w) ∷ l) (u0 ∷ us) s r (n, ns, nl) f j t =
      elim (Bool-cases (eq_bytes k b)) [
        | inl e ↦
            let same_value : w ≡ v = ground (arith, f, e) in
            let same : u0 ≡ u = ground (arith, r.0, j, same_value) in
            rw (same, t) (passing-Above test b l us (rw ((eq_bytes_iff k b).0 e) at s.0) nl)
        | inr e ↦
            let rest = passing-other test b v u l us s.1 r.1 nl (rw e at f) j t in
            let other : u0.upload_id ≢ b = λ h. cc (e, (eq_bytes_iff k b).1 (n ∙ h)) in
            elim (Bool-cases (test u0)) [ inl p ↦ rw p ((ns, other), rest) | inr p ↦ rw p rest ]
      ]

  pub passing-Among :
      (test : MultipartUpload → Bool) (b v : Bytes) (u : MultipartUpload) (l : Pairs)
      (us : List MultipartUpload)
      → Records bolt json l us
      → Named l us
      → lookup b l ≡ some v
      → json.unmarshal v ≡ some u
      → test u ≡ true
      → Among b (passing test us)
  unfolding passing lookup
  passing-Among test b v u [] us r n f j t = cc
  passing-Among test b v u (x ∷ l) [] r n f j t = elim n [ ]
  passing-Among test b v u ((k, w) ∷ l) (u0 ∷ us) r (n, ns, nl) f j t =
      elim (Bool-cases (eq_bytes k b)) [
        | inl e ↦
            let same_value : w ≡ v = ground (arith, f, e) in
            let same : u0 ≡ u = ground (arith, r.0, j, same_value) in
            let named : u.upload_id ≡ b = cc (n, same, (eq_bytes_iff k b).0 e) in
            rw (same, t) (inl named)
        | inr e ↦
            let rest = passing-Among test b v u l us r.1 nl (rw e at f) j t in
            elim (Bool-cases (test u0)) [ inl p ↦ rw p (inr rest) | inr p ↦ rw p rest ]
      ]

  pub passing-NoSlashes :
      (test : MultipartUpload → Bool) (l : Pairs) (us : List MultipartUpload)
      → Named l us
      → NoSlashes (passing test us)
  unfolding passing
  passing-NoSlashes test [] [] n = tt
  passing-NoSlashes test [] (u ∷ us) n = elim n [ ]
  passing-NoSlashes test (x ∷ l) [] n = elim n [ ]
  passing-NoSlashes test ((k, v) ∷ l) (u ∷ us) (n, ns, nl) =
      let rest = passing-NoSlashes test l us nl in
      elim (Bool-cases (test u)) [ inl e ↦ rw e (ns, rest) | inr e ↦ rw e rest ]
