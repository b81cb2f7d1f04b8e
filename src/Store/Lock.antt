-- ===== src/Store/Lock.antt =====
-- internal/store/lock.go: the KeyedMutex, as the moves of the calls of Lock that are under way. A
-- move is what a call does while it holds `mu`, or its call of the mutex of the key. The moves of
-- all calls come in any order. A goroutine that holds one key and asks for another is two calls.
pub mod Counting
pub mod Consistent
pub mod Reach
pub mod Exclusion
pub mod Tests
use pterodactyl_proxmox_back.Prelude.{
  ℕ, zero, suc, ◌+◌, ◌-◌, ◌≡◌, Bool, true, false, Option, none, some, List, [], ◌∷◌, ◌==◌,
  if◌then◌else◌, Bytes,
}
use pterodactyl_proxmox_back.Strings.{eq_bytes}

-- refCountedMutex: whether it is locked, and its count of references
pub record RefCountedMutex : Type 0 where
  pub is_locked : Bool
  pub ref : ℕ

-- where a call is: not yet made or over, or with the mutex that it has for its key: it waits for the
-- mutex, holds it, or has unlocked it and is still counted
pub data Phase : Type 0 where
  outside : Phase
  waiting holding leaving : Bytes → ℕ → Phase

-- `locks` gives the mutex of a key; a mutex is named by a number, and those from `unused` on have
-- not been made
pub record KeyedMutex : Type 0 where
  pub locks : Bytes → Option ℕ
  pub mutexes : ℕ → RefCountedMutex
  pub unused : ℕ
  pub calls : List Phase

abbrev pub get_elem? : List Phase → ℕ → Option Phase
get_elem? [] i = none
get_elem? (p ∷ ps) zero = some p
get_elem? (p ∷ ps) (suc i) = get_elem? ps i

abbrev pub set : List Phase → ℕ → Phase → List Phase
set [] i q = []
set (p ∷ ps) zero q = q ∷ ps
set (p ∷ ps) (suc i) q = p ∷ set ps i q

abbrev pub at_key : Bytes → Option ℕ → (Bytes → Option ℕ) → Bytes → Option ℕ
at_key key v f k = if eq_bytes key k then v else f k

abbrev pub at_mutex : ℕ → RefCountedMutex → (ℕ → RefCountedMutex) → ℕ → RefCountedMutex
at_mutex m v f n = if m == n then v else f n

pub data Move : Type 0 where
  enter : ℕ → Bytes → Move
  acquire release leave : ℕ → Move

module _ (k : KeyedMutex) (i : ℕ) where
  abbrev pub to : Phase → KeyedMutex
  to q = record k { calls = set k.calls i q }

  abbrev pub counted : Bytes → ℕ → RefCountedMutex → KeyedMutex
  counted key m r = record (to (waiting key m)) {
    mutexes = at_mutex m (record r { ref = r.ref + 1 }) k.mutexes;
  }

  -- the part of Lock under `mu`
  abbrev pub entered : Bytes → Option ℕ → KeyedMutex
  entered key (some m) = counted key m (k.mutexes m)
  entered key none = record (counted key k.unused (record { is_locked = false; ref = 0 })) {
    locks = at_key key (some k.unused) k.locks;
    unused = suc k.unused;
  }

  abbrev pub with_lock : ℕ → Bool → Phase → KeyedMutex
  with_lock m b q = record (to q) {
    mutexes = at_mutex m (record (k.mutexes m) { is_locked = b }) k.mutexes;
  }

  -- the part of the unlock function under `mu`
  abbrev pub left : Bytes → ℕ → KeyedMutex
  left key m =
      let n = (k.mutexes m).ref - 1 in
      record (to outside) {
        mutexes = at_mutex m (record (k.mutexes m) { ref = n }) k.mutexes;
        locks = if n == 0 then at_key key none k.locks else k.locks;
      }

  -- Lock up to the mutex of the key
  unfoldable pub enter_at : Bytes → Option Phase → Option KeyedMutex
  enter_at key (some outside) = some (entered key (k.locks key))
  enter_at key p = none

  -- rm.mu.Lock() returns
  unfoldable pub acquire_at : Option Phase → Option KeyedMutex
  acquire_at (some (waiting key m)) =
      if (k.mutexes m).is_locked then none else some (with_lock m true (holding key m))
  acquire_at p = none

  -- rm.mu.Unlock()
  unfoldable pub release_at : Option Phase → Option KeyedMutex
  release_at (some (holding key m)) = some (with_lock m false (leaving key m))
  release_at p = none

  unfoldable pub leave_at : Option Phase → Option KeyedMutex
  leave_at (some (leaving key m)) = some (left key m)
  leave_at p = none

-- a move of a call, if the call can make it
unfoldable pub step : Move → KeyedMutex → Option KeyedMutex
step (enter i key) k = enter_at k i key (get_elem? k.calls i)
step (acquire i) k = acquire_at k i (get_elem? k.calls i)
step (release i) k = release_at k i (get_elem? k.calls i)
step (leave i) k = leave_at k i (get_elem? k.calls i)

abbrev pub all_outside : ℕ → List Phase
all_outside zero = []
all_outside (suc n) = outside ∷ all_outside n

-- NewKeyedMutex, with places for a number of calls at a time, each for one call after another
unfoldable pub new_keyed_mutex : ℕ → KeyedMutex
new_keyed_mutex n = record {
  locks = λ key. none;
  mutexes = λ m. record { is_locked = false; ref = 0 };
  unused = 0;
  calls = all_outside n;
}

-- the states that the calls can come to
pub data Reachable (n : ℕ) : KeyedMutex → Type 0 where
  start : {k : KeyedMutex} → k ≡ new_keyed_mutex n → Reachable n k
  next : {k k' : KeyedMutex} (mv : Move) → Reachable n k → step mv k ≡ some k' → Reachable n k'
