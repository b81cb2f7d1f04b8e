-- ===== src/Store/Lock/Counting.antt =====
-- Counting calls of a KeyedMutex.
use mathlib.Core.Option.{some-injective}
use pterodactyl_proxmox_back.Prelude.{
  ℕ, zero, suc, ◌+◌, ◌≤◌, ◌<◌, ◌≡◌, refl, ap, ◌≢◌, ◌⊎◌, inl, inr, some, List, [], ◌∷◌, arith, ◌==◌,
  if◌then◌else◌,
}
use pterodactyl_proxmox_back.Store.Lock.{Phase, outside, waiting, holding, leaving, get_elem?, set}

-- 1 for a call that is counted by a mutex, and for one that holds it
abbrev pub on : ℕ → Phase → ℕ
on m outside = 0
on m (waiting key n) = if m == n then 1 else 0
on m (holding key n) = if m == n then 1 else 0
on m (leaving key n) = if m == n then 1 else 0

abbrev pub holds : ℕ → Phase → ℕ
holds m (holding key n) = if m == n then 1 else 0
holds m _ = 0

abbrev pub total : (Phase → ℕ) → List Phase → ℕ
total f [] = 0
total f (p ∷ ps) = f p + total f ps

-- What a change of one call does to a count.
pub total-set :
    (f : Phase → ℕ) (ps : List Phase) (i : ℕ) (p q : Phase)
    → get_elem? ps i ≡ some p
    → total f (set ps i q) + f p ≡ total f ps + f q
total-set f [] i p q h = cc
total-set f (x ∷ ps) zero p q h = omega (arith, ap f (some-injective x p h))
total-set f (x ∷ ps) (suc i) p q h = omega (arith, total-set f ps i p q h)

pub total-le :
    (f : Phase → ℕ) (ps : List Phase) (i : ℕ) (p : Phase)
    → get_elem? ps i ≡ some p
    → f p ≤ total f ps
total-le f [] i p h = cc
total-le f (x ∷ ps) zero p h = omega (arith, ap f (some-injective x p h))
total-le f (x ∷ ps) (suc i) p h = omega (arith, total-le f ps i p h)

-- Two calls count twice.
pub total-two :
    (f : Phase → ℕ) (ps : List Phase) (i j : ℕ) (p q : Phase)
    → get_elem? ps i ≡ some p
    → get_elem? ps j ≡ some q
    → i ≢ j
    → f p + f q ≤ total f ps
total-two f [] i j p q h k ne = cc
total-two f (x ∷ ps) zero zero p q h k ne = absurd (ne refl)
total-two f (x ∷ ps) zero (suc j) p q h k ne =
    omega (arith, ap f (some-injective x p h), total-le f ps j q k)
total-two f (x ∷ ps) (suc i) zero p q h k ne =
    omega (arith, ap f (some-injective x q k), total-le f ps i p h)
total-two f (x ∷ ps) (suc i) (suc j) p q h k ne =
    omega (arith, total-two f ps i j p q h k (λ e. ne (ap suc e)))

pub holds-le-on : (m : ℕ) (p : Phase) → holds m p ≤ on m p
holds-le-on m outside = omega arith
holds-le-on m (waiting key n) = ground arith
holds-le-on m (holding key n) = ground arith
holds-le-on m (leaving key n) = ground arith

pub total_holds-le : (m : ℕ) (ps : List Phase) → total (holds m) ps ≤ total (on m) ps
total_holds-le m [] = omega arith
total_holds-le m (p ∷ ps) = omega (arith, holds-le-on m p, total_holds-le m ps)

pub get_elem?-set_self :
    (ps : List Phase) (i : ℕ) (p q : Phase)
    → get_elem? ps i ≡ some p
    → get_elem? (set ps i q) i ≡ some q
get_elem?-set_self [] i p q h = cc
get_elem?-set_self (x ∷ ps) zero p q h = refl
get_elem?-set_self (x ∷ ps) (suc i) p q h = get_elem?-set_self ps i p q h

-- A call after a change of one.
pub get_elem?-set :
    (ps : List Phase) (i j : ℕ) (q r : Phase)
    → get_elem? (set ps i q) j ≡ some r
    → (q ≡ r) ⊎ (get_elem? ps j ≡ some r)
get_elem?-set [] i j q r h = cc
get_elem?-set (x ∷ ps) zero zero q r h = inl (some-injective q r h)
get_elem?-set (x ∷ ps) zero (suc j) q r h = inr h
get_elem?-set (x ∷ ps) (suc i) zero q r h = inr h
get_elem?-set (x ∷ ps) (suc i) (suc j) q r h = get_elem?-set ps i j q r h

-- A call that counts, where the count is not zero.
pub find_counted :
    (f : Phase → ℕ) (ps : List Phase)
    → 0 < total f ps
    → (j : ℕ) × (p : Phase) × (get_elem? ps j ≡ some p) × (0 < f p)
find_counted f [] h = absurd (omega arith)
find_counted f (p ∷ ps) h =
    elim (f p)
        as (λ n. f p ≡ n → (j : ℕ) × (q : Phase) × (get_elem? (p ∷ ps) j ≡ some q) × (0 < f q)) [
          | zero ↦ λ e. let (j, q, g, l) = find_counted f ps (omega (arith, e)) in (suc j, q, g, l)
          | suc n ↦ λ e. (0, p, refl, omega (arith, e))
        ]
      refl
