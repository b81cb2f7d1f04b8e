-- ===== src/Store/Lock/Tests.antt =====
-- Two calls at one key, and the theorems at them.
use pterodactyl_proxmox_back.Prelude.{
  ℕ, ◌≡◌, refl, ◌≢◌, ◌↔◌, true, false, Option, none, some, List, [], ◌∷◌, Bytes, codes,
}
use pterodactyl_proxmox_back.Strings.{eq_bytes}
use pterodactyl_proxmox_back.Store.Lock.{
  Phase, outside, holding, KeyedMutex, get_elem?, Move, enter, acquire, release, leave, counted,
  entered, with_lock, enter_at, acquire_at, release_at, leave_at, step, new_keyed_mutex, Reachable,
  start, next,
}
use pterodactyl_proxmox_back.Store.Lock.Exclusion.{IsAt, mutual_exclusion, acquire_iff, locks_iff}

abbrev key : Bytes
key = codes "b/k"

abbrev both_outside : KeyedMutex
both_outside = record {
  locks = λ key. none;
  mutexes = λ m. record { is_locked = false; ref = 0 };
  unused = 0;
  calls = outside ∷ outside ∷ [];
}

abbrev first_waits : KeyedMutex
first_waits = entered both_outside 0 key none

abbrev both_wait : KeyedMutex
both_wait = counted first_waits 1 key 0 (record { is_locked = false; ref = 1 })

abbrev first_holds : KeyedMutex
first_holds = with_lock both_wait 0 0 true (holding key 0)

first_holds-Reachable : Reachable 2 first_holds
unfolding step enter_at acquire_at new_keyed_mutex eq_bytes
first_holds-Reachable =
    next (acquire 0) (next (enter 1 key) (next (enter 0 key) (start refl) refl) refl) refl

-- the second call cannot take the lock that the first holds,
cannot_acquire : step (acquire 1) first_holds ≡ none
unfolding step acquire_at
cannot_acquire = refl

-- and when both have left, the map is empty
abbrev after : List Move → Option KeyedMutex → Option KeyedMutex
after [] o = o
after (mv ∷ mvs) none = none
after (mv ∷ mvs) (some k) = after mvs (step mv k)

abbrev entry_in : Option KeyedMutex → Option (Option ℕ)
entry_in none = none
entry_in (some k) = some (k.locks key)

empties :
    entry_in (after (release 0 ∷ leave 0 ∷ acquire 1 ∷ release 1 ∷ leave 1 ∷ []) (some first_holds))
    ≡ some none
unfolding step acquire_at release_at leave_at eq_bytes
empties = refl

mutual_exclusion_example : ◌≡◌ {A = ℕ} 0 0
mutual_exclusion_example =
    mutual_exclusion 2 first_holds 0 key 0 0 0 first_holds-Reachable refl refl

acquire_iff_example :
    ((k' : KeyedMutex) × (step (acquire 1) first_holds ≡ some k'))
    ↔ ((j a : ℕ) → get_elem? first_holds.calls j ≢ some (holding key a))
acquire_iff_example = acquire_iff 2 first_holds 1 key 0 first_holds-Reachable refl

locks_iff_example :
    ((m : ℕ) × (first_holds.locks key ≡ some m))
    ↔ ((i : ℕ) × (p : Phase) × (get_elem? first_holds.calls i ≡ some p) × IsAt key p)
locks_iff_example = locks_iff 2 first_holds key first_holds-Reachable
