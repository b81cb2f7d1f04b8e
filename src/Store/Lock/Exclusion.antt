-- ===== src/Store/Lock/Exclusion.antt =====
-- What a KeyedMutex promises to its calls.
use mathlib.Core.Option.{some-injective}
use native.Mathlib.Decide.{ℕ_discrete}
use pterodactyl_proxmox_back.Prelude.{
  ℕ, ◌≤◌, ◌<◌, ◌≡◌, sym, ap, ◌∙◌, ◌≢◌, ◌↔◌, inl, inr, Bool, true, false, Option, none, some, arith,
  ◌==◌, if◌then◌else◌, ==_iff, ==_refl, Bool-cases, Bytes,
}
use pterodactyl_proxmox_back.Store.Lock.{
  RefCountedMutex, Phase, outside, waiting, holding, leaving, KeyedMutex, get_elem?, acquire,
  with_lock, acquire_at, step, Reachable,
}
use pterodactyl_proxmox_back.Store.Lock.Counting.{on, holds, total-le, total-two, find_counted}
use pterodactyl_proxmox_back.Store.Lock.Consistent.{bit, Points}
use pterodactyl_proxmox_back.Store.Lock.Reach.{Reachable-Consistent}

-- a call that is at a key, from the entry of Lock to the end of its unlock function
abbrev pub IsAt : Bytes → Phase → Type 0
IsAt key outside = ⊥
IsAt key (waiting a m) = a ≡ key
IsAt key (holding a m) = a ≡ key
IsAt key (leaving a m) = a ≡ key

holds_self : (key : Bytes) (m : ℕ) → holds m (holding key m) ≡ 1
holds_self key m = rw (==_refl m)

bit-le : (b : Bool) → bit b ≤ 1
bit-le true = omega arith
bit-le false = omega arith

holder : (m : ℕ) (p : Phase) → 0 < holds m p → (key : Bytes) × (p ≡ holding key m)
holder m outside h = absurd (omega arith)
holder m (waiting a b) h = absurd (omega arith)
holder m (holding a b) h = (
  a,
  elim (Bool-cases (m == b)) [
    | inl e ↦ ap (holding a) (sym ((==_iff m b).0 e))
    | inr e ↦ absurd (ground arith)
  ],
)
holder m (leaving a b) h = absurd (omega arith)

module _ (locks : Bytes → Option ℕ) (m : ℕ) where
  named_by :
      (a : Bytes) (b : ℕ) → 0 < (if m == b then 1 else 0) → locks a ≡ some b → locks a ≡ some m
  named_by a b l e = elim (Bool-cases (m == b)) [
    | inl q ↦ e ∙ ap some (sym ((==_iff m b).0 q))
    | inr q ↦ absurd (ground arith)
  ]

  on-IsAt :
      {key : Bytes} (p : Phase)
      → 0 < on m p
      → Points locks p
      → ((a : Bytes) → locks a ≡ some m → a ≡ key)
      → IsAt key p
  on-IsAt outside l e f = absurd (omega arith)
  on-IsAt (waiting a b) l e f = f a (named_by a b l e)
  on-IsAt (holding a b) l e f = f a (named_by a b l e)
  on-IsAt (leaving a b) l e f = f a (named_by a b l e)

entry_of :
    (locks : Bytes → Option ℕ) (key : Bytes) (p : Phase)
    → Points locks p
    → IsAt key p
    → (m : ℕ) × (locks key ≡ some m)
entry_of locks key outside e a = absurd a
entry_of locks key (waiting b m) e a = (m, sym (ap locks a) ∙ e)
entry_of locks key (holding b m) e a = (m, sym (ap locks a) ∙ e)
entry_of locks key (leaving b m) e a = (m, sym (ap locks a) ∙ e)

module _ (n : ℕ) (k : KeyedMutex) (i : ℕ) (key : Bytes) where
  -- Two calls never hold the lock of one key at a time.
  pub mutual_exclusion :
      (j a b : ℕ)
      → Reachable n k
      → get_elem? k.calls i ≡ some (holding key a)
      → get_elem? k.calls j ≡ some (holding key b)
      → i ≡ j
  mutual_exclusion j a b r h g =
      let c = Reachable-Consistent r in
      let same : a ≡ b =
        some-injective a b (sym (c.named i (holding key a) h) ∙ c.named j (holding key b) g) in
      elim (ℕ_discrete i j) [
        | yes e ↦ e
        | no ne ↦
            let two = total-two (holds a) k.calls i j (holding key a) (holding key b) h g ne in
            absurd (
              omega (
                arith,
                two,
                holds_self key a,
                ap (λ (x : ℕ). holds a (holding key x)) same,
                bit-le (k.mutexes a).is_locked,
                c.held a,
              ))
      ]

  -- A call that waits for the lock of its key can take it exactly when no other call holds the lock
  -- of that key: the locks of other keys never stand in its way.
  pub acquire_iff :
      (m : ℕ)
      → Reachable n k
      → get_elem? k.calls i ≡ some (waiting key m)
      → ((k' : KeyedMutex) × (step (acquire i) k ≡ some k'))
        ↔ ((j a : ℕ) → get_elem? k.calls j ≢ some (holding key a))
  unfolding step acquire_at
  acquire_iff m r h =
      let c = Reachable-Consistent r in
      (
        λ (k', e) j a g.
            let same : a ≡ m =
              some-injective a m
                (sym (c.named j (holding key a) g) ∙ c.named i (waiting key m) h) in
            let locked : (k.mutexes m).is_locked ≡ false = unlocked k.mutexes m (rw h at e) in
            let counted_once = total-le (holds m) k.calls j (holding key a) g in
            absurd (
              omega (
                arith,
                counted_once,
                ap (λ (x : ℕ). holds m (holding key x)) same,
                holds_self key m,
                c.held m,
                ap bit locked,
              )),
        λ free. elim (Bool-cases (k.mutexes m).is_locked) [
          | inr e ↦ (with_lock k i m true (holding key m), rw (h, e))
          | inl e ↦
              let (j, p, g, l) =
                find_counted (holds m) k.calls (omega (arith, c.held m, ap bit e)) in
              let (a, q) = holder m p l in
              let g' : get_elem? k.calls j ≡ some (holding a m) = g ∙ ap some q in
              let same : a ≡ key =
                c.apart a key m (c.named j (holding a m) g') (c.named i (waiting key m) h) in
              absurd (free j m (g' ∙ ap (λ (x : Bytes). some (holding x m)) same))
        ],
      )
    where
      unlocked :
          (mutexes : ℕ → RefCountedMutex) (m : ℕ) {k' : KeyedMutex}
          → (if (mutexes m).is_locked then none else some (with_lock k i m true (holding key m)))
            ≡ some k'
          → (mutexes m).is_locked ≡ false
      unlocked mutexes m e = elim (Bool-cases (mutexes m).is_locked) [
        | inl q ↦ absurd (ground arith)
        | inr q ↦ q
      ]

module _ (n : ℕ) (k : KeyedMutex) (key : Bytes) where
  -- A key has an entry in the map exactly while a call is at it: none is left behind.
  pub locks_iff :
      Reachable n k
      → ((m : ℕ) × (k.locks key ≡ some m))
        ↔ ((i : ℕ) × (p : Phase) × (get_elem? k.calls i ≡ some p) × IsAt key p)
  locks_iff r =
      let c = Reachable-Consistent r in
      (
        λ (m, e).
            let (i, p, g, l) = find_counted (on m) k.calls (c.used key m e) in
            (i, p, g, on-IsAt k.locks m p l (c.named i p g) (λ a x. c.apart a key m x e)),
        λ (i, p, g, a). entry_of k.locks key p (c.named i p g) a,
      )
