-- ===== src/Store/Lock/Reach.antt =====
-- Every move of a call leaves a KeyedMutex consistent.
use mathlib.Core.Option.{some-injective}
use mathlib.Core.Path.{subst}
use pterodactyl_proxmox_back.Prelude.{
  ℕ, zero, suc, ◌≡◌, refl, sym, inl, inr, Option, none, some, arith, Bool-cases, Option-cases,
  Bytes,
}
use pterodactyl_proxmox_back.Store.Lock.{
  Phase, outside, waiting, holding, leaving, KeyedMutex, get_elem?, Move, enter, acquire, release,
  leave, entered, enter_at, acquire_at, release_at, leave_at, step, all_outside, new_keyed_mutex,
  Reachable, start, next,
}
use pterodactyl_proxmox_back.Store.Lock.Counting.{on, holds, total}
use pterodactyl_proxmox_back.Store.Lock.Consistent.{
  Points, Consistent, acquire-Consistent, release-Consistent, enter_known-Consistent,
  enter_new-Consistent, leave-Consistent,
}

none_on_outside : (m n : ℕ) → total (on m) (all_outside n) ≡ 0
none_on_outside m zero = refl
none_on_outside m (suc n) = omega (arith, none_on_outside m n)

none_holds_outside : (m n : ℕ) → total (holds m) (all_outside n) ≡ 0
none_holds_outside m zero = refl
none_holds_outside m (suc n) = omega (arith, none_holds_outside m n)

all_are_outside : (n i : ℕ) (p : Phase) → get_elem? (all_outside n) i ≡ some p → outside ≡ p
all_are_outside zero i p h = cc
all_are_outside (suc n) zero p h = some-injective outside p h
all_are_outside (suc n) (suc i) p h = all_are_outside n i p h

new_keyed_mutex-Consistent : (n : ℕ) → Consistent (new_keyed_mutex n)
unfolding new_keyed_mutex
new_keyed_mutex-Consistent n = record {
  refs = λ m. sym (none_on_outside m n);
  held = λ m. sym (none_holds_outside m n);
  named = λ i p e. subst (Points (λ key. none)) (all_are_outside n i p e) tt;
  used = λ key m e. absurd (ground arith);
  apart = λ a b m x y. absurd (ground arith);
  fresh = λ m l. none_on_outside m n;
}

entered-Consistent :
    (k : KeyedMutex) (i : ℕ) (key : Bytes)
    → Consistent k
    → get_elem? k.calls i ≡ some outside
    → Consistent (entered k i key (k.locks key))
entered-Consistent k i key c h = elim (Option-cases (k.locks key)) [
  | inl e ↦ subst (λ o. Consistent (entered k i key o)) (sym e) (enter_new-Consistent k c i key h e)
  | inr (m, e) ↦
      subst (λ o. Consistent (entered k i key o)) (sym e) (enter_known-Consistent k c i key m h e)
]

module _ (k : KeyedMutex) (i : ℕ) (c : Consistent k) {k' : KeyedMutex} where
  enter_at-Consistent :
      (key : Bytes) (o : Option Phase)
      → get_elem? k.calls i ≡ o
      → enter_at k i key o ≡ some k'
      → Consistent k'
  unfolding enter_at
  enter_at-Consistent key (some outside) h e =
      subst Consistent (some-injective _ _ e) (entered-Consistent k i key c h)
  enter_at-Consistent key none h e = cc
  enter_at-Consistent key (some (waiting a m)) h e = cc
  enter_at-Consistent key (some (holding a m)) h e = cc
  enter_at-Consistent key (some (leaving a m)) h e = cc

  acquire_at-Consistent :
      (o : Option Phase) → get_elem? k.calls i ≡ o → acquire_at k i o ≡ some k' → Consistent k'
  unfolding acquire_at
  acquire_at-Consistent (some (waiting key m)) h e = elim (Bool-cases (k.mutexes m).is_locked) [
    | inl q ↦ absurd (ground arith)
    | inr q ↦ subst Consistent (some-injective _ _ (rw q at e)) (acquire-Consistent k c i key m h q)
  ]
  acquire_at-Consistent none h e = cc
  acquire_at-Consistent (some outside) h e = cc
  acquire_at-Consistent (some (holding a m)) h e = cc
  acquire_at-Consistent (some (leaving a m)) h e = cc

  release_at-Consistent :
      (o : Option Phase) → get_elem? k.calls i ≡ o → release_at k i o ≡ some k' → Consistent k'
  unfolding release_at
  release_at-Consistent (some (holding key m)) h e =
      subst Consistent (some-injective _ _ e) (release-Consistent k c i key m h)
  release_at-Consistent none h e = cc
  release_at-Consistent (some outside) h e = cc
  release_at-Consistent (some (waiting a m)) h e = cc
  release_at-Consistent (some (leaving a m)) h e = cc

  leave_at-Consistent :
      (o : Option Phase) → get_elem? k.calls i ≡ o → leave_at k i o ≡ some k' → Consistent k'
  unfolding leave_at
  leave_at-Consistent (some (leaving key m)) h e =
      subst Consistent (some-injective _ _ e) (leave-Consistent k c i key m h)
  leave_at-Consistent none h e = cc
  leave_at-Consistent (some outside) h e = cc
  leave_at-Consistent (some (waiting a m)) h e = cc
  leave_at-Consistent (some (holding a m)) h e = cc

step-Consistent :
    (mv : Move) (k k' : KeyedMutex) → Consistent k → step mv k ≡ some k' → Consistent k'
unfolding step
step-Consistent (enter i key) k k' c e = enter_at-Consistent k i c key (get_elem? k.calls i) refl e
step-Consistent (acquire i) k k' c e = acquire_at-Consistent k i c (get_elem? k.calls i) refl e
step-Consistent (release i) k k' c e = release_at-Consistent k i c (get_elem? k.calls i) refl e
step-Consistent (leave i) k k' c e = leave_at-Consistent k i c (get_elem? k.calls i) refl e

-- Every state that the calls can come to is consistent.
pub Reachable-Consistent : {n : ℕ} {k : KeyedMutex} → Reachable n k → Consistent k
Reachable-Consistent {n} (start e) = subst Consistent (sym e) (new_keyed_mutex-Consistent n)
Reachable-Consistent (next {k} {k'} mv r e) = step-Consistent mv k k' (Reachable-Consistent r) e
