-- ===== src/Store/Lock/Consistent.antt =====
-- What holds of a KeyedMutex whatever its calls have done.
use mathlib.Core.Option.{some-injective}
use mathlib.Core.Path.{subst}
use pterodactyl_proxmox_back.Prelude.{
  ℕ, ◌-◌, ◌≤◌, ◌<◌, ◌≡◌, sym, ap, ◌∙◌, ◌≢◌, inl, inr, Bool, true, false, Option, none, some, arith,
  ◌==◌, Bool-cases, Bytes,
}
use pterodactyl_proxmox_back.Store.Lock.{
  Phase, outside, waiting, holding, leaving, KeyedMutex, get_elem?, set, at_key, counted, entered,
  with_lock, left,
}
use pterodactyl_proxmox_back.Store.Lock.Counting.{
  on, holds, total, total-set, total-le, total_holds-le, get_elem?-set,
}
use pterodactyl_proxmox_back.Strings.{eq_bytes}
use pterodactyl_proxmox_back.Strings.Equal.{eq_bytes_iff, eq_bytes_refl}

abbrev pub bit : Bool → ℕ
bit true = 1
bit false = 0

-- the mutex that a call has is the one of its key
abbrev pub Points : (Bytes → Option ℕ) → Phase → Type 0
Points locks outside = Unit
Points locks (waiting key m) = locks key ≡ some m
Points locks (holding key m) = locks key ≡ some m
Points locks (leaving key m) = locks key ≡ some m

-- A mutex counts the calls that have it and is locked if one of them holds it; the mutexes in the
-- map are those of the calls, one for each key.
pub record Consistent (k : KeyedMutex) : Type 0 where
  pub refs : (m : ℕ) → (k.mutexes m).ref ≡ total (on m) k.calls
  pub held : (m : ℕ) → bit (k.mutexes m).is_locked ≡ total (holds m) k.calls
  pub named : (i : ℕ) (p : Phase) → get_elem? k.calls i ≡ some p → Points k.locks p
  pub used : (key : Bytes) (m : ℕ) → k.locks key ≡ some m → 0 < total (on m) k.calls
  pub apart : (a b : Bytes) (m : ℕ) → k.locks a ≡ some m → k.locks b ≡ some m → a ≡ b
  pub fresh : (m : ℕ) → k.unused ≤ m → total (on m) k.calls ≡ 0

module _ (locks : Bytes → Option ℕ) (key : Bytes) where
  -- another key keeps its mutex where one has none,
  at_key_new :
      (v : Option ℕ) (a : Bytes) (m : ℕ)
      → locks key ≡ none
      → locks a ≡ some m
      → at_key key v locks a ≡ some m
  at_key_new v a m n h = elim (Bool-cases (eq_bytes key a)) [
    | inl e ↦ let same = ap locks ((eq_bytes_iff key a).0 e) in absurd (ground arith)
    | inr e ↦ rw e h
  ]

  Points-new :
      (v : Option ℕ) (p : Phase) → locks key ≡ none → Points locks p → Points (at_key key v locks) p
  Points-new v outside n h = tt
  Points-new v (waiting a m) n h = at_key_new v a m n h
  Points-new v (holding a m) n h = at_key_new v a m n h
  Points-new v (leaving a m) n h = at_key_new v a m n h

  at_key_self : (v : Option ℕ) → at_key key v locks key ≡ v
  at_key_self v = rw (eq_bytes_refl key)

  -- and where one loses its own
  at_key_lost :
      (a : Bytes) (m n : ℕ)
      → locks key ≡ some m
      → m ≢ n
      → locks a ≡ some n
      → at_key key none locks a ≡ some n
  at_key_lost a m n e other h = elim (Bool-cases (eq_bytes key a)) [
    | inl q ↦
        let same = ap locks ((eq_bytes_iff key a).0 q) in
        let mn : m ≡ n = some-injective m n (sym e ∙ same ∙ h) in absurd (other mn)
    | inr q ↦ rw q h
  ]

  Points-lost :
      (p : Phase) (m : ℕ)
      → locks key ≡ some m
      → on m p ≡ 0
      → Points locks p
      → Points (at_key key none locks) p
  Points-lost outside m e other h = tt
  Points-lost (waiting a n) m e other h = at_key_lost a m n e (ground arith) h
  Points-lost (holding a n) m e other h = at_key_lost a m n e (ground arith) h
  Points-lost (leaving a n) m e other h = at_key_lost a m n e (ground arith) h

module _ (k : KeyedMutex) (c : Consistent k) (i : ℕ) where
  module _ (key : Bytes) (m : ℕ) where
    pub acquire-Consistent :
        get_elem? k.calls i ≡ some (waiting key m)
        → (k.mutexes m).is_locked ≡ false
        → Consistent (with_lock k i m true (holding key m))
    acquire-Consistent h free =
        let f = λ (n : ℕ). total-set (on n) k.calls i (waiting key m) (holding key m) h in
        let g = λ (n : ℕ). total-set (holds n) k.calls i (waiting key m) (holding key m) h in
        record {
          refs = λ n. ground (arith, f n, c.refs n);
          held = λ n. ground (arith, g n, c.held n);
          named = λ j p e. ground (
            arith,
            get_elem?-set k.calls i j (holding key m) p e,
            c.named j p,
            c.named i (waiting key m) h,
          );
          used = λ a n e. ground (arith, f n, c.used a n e);
          apart = c.apart;
          fresh = λ n l. ground (arith, f n, c.fresh n l);
        }

    pub release-Consistent :
        get_elem? k.calls i ≡ some (holding key m)
        → Consistent (with_lock k i m false (leaving key m))
    release-Consistent h =
        let f = λ (n : ℕ). total-set (on n) k.calls i (holding key m) (leaving key m) h in
        let g = λ (n : ℕ). total-set (holds n) k.calls i (holding key m) (leaving key m) h in
        record {
          refs = λ n. ground (arith, f n, c.refs n);
          held = λ n. ground (arith, g n, c.held n);
          named = λ j p e. ground (
            arith,
            get_elem?-set k.calls i j (leaving key m) p e,
            c.named j p,
            c.named i (holding key m) h,
          );
          used = λ a n e. ground (arith, f n, c.used a n e);
          apart = c.apart;
          fresh = λ n l. ground (arith, f n, c.fresh n l);
        }

    pub enter_known-Consistent :
        get_elem? k.calls i ≡ some outside
        → k.locks key ≡ some m
        → Consistent (counted k i key m (k.mutexes m))
    enter_known-Consistent h e0 =
        let f = λ (n : ℕ). total-set (on n) k.calls i outside (waiting key m) h in
        let g = λ (n : ℕ). total-set (holds n) k.calls i outside (waiting key m) h in
        record {
          refs = λ n. ground (arith, f n, c.refs n);
          held = λ n. ground (arith, g n, c.held n);
          named =
              λ j p e. ground (arith, get_elem?-set k.calls i j (waiting key m) p e, c.named j p);
          used = λ a n e. ground (arith, f n, c.used a n e);
          apart = c.apart;
          fresh = λ n l. ground (arith, f n, c.fresh n l, c.used key m e0, c.fresh m);
        }

  module _ (key : Bytes) where
    pub enter_new-Consistent :
        get_elem? k.calls i ≡ some outside → k.locks key ≡ none → Consistent (entered k i key none)
    enter_new-Consistent h e0 =
        let m = k.unused in
        let f = λ (n : ℕ). total-set (on n) k.calls i outside (waiting key m) h in
        let g = λ (n : ℕ). total-set (holds n) k.calls i outside (waiting key m) h in
        let none_on : total (on m) k.calls ≡ 0 = c.fresh m (omega arith) in
        let none_holds : total (holds m) k.calls ≡ 0 = omega (arith, total_holds-le m k.calls) in
        record {
          refs = λ n. ground (arith, f n, c.refs n);
          held = λ n. ground (arith, g n, c.held n);
          named = λ j p e. elim (get_elem?-set k.calls i j (waiting key m) p e) [
            | inl q ↦
                subst (Points (at_key key (some m) k.locks)) q (at_key_self k.locks key (some m))
            | inr o ↦ Points-new k.locks key (some m) p e0 (c.named j p o)
          ];
          used = λ a n e. ground (arith, f n, c.used a n);
          apart = λ a b n x y. ground (
            arith,
            eq_bytes_iff key a,
            eq_bytes_iff key b,
            c.apart a b n,
            c.used a n,
            c.used b n,
            c.fresh n,
          );
          fresh = λ n l. ground (arith, f n, c.fresh n);
        }

    pub leave-Consistent :
        (m : ℕ) → get_elem? k.calls i ≡ some (leaving key m) → Consistent (left k i key m)
    leave-Consistent m h =
        let f = λ (n : ℕ). total-set (on n) k.calls i (leaving key m) outside h in
        let g = λ (n : ℕ). total-set (holds n) k.calls i (leaving key m) outside h in
        record {
          refs = λ n. ground (arith, f n, c.refs n);
          held = λ n. ground (arith, g n, c.held n);
          named = λ j p e. elim (get_elem?-set k.calls i j outside p e) [
            | inl q ↦ subst (Points (left k i key m).locks) q tt
            | inr o ↦ elim (Bool-cases ((k.mutexes m).ref - 1 == 0)) [
              | inl z ↦ rw z (
                  Points-lost k.locks key p m (c.named i (leaving key m) h)
                    (ground (arith, f m, c.refs m, total-le (on m) (set k.calls i outside) j p e))
                    (c.named j p o))
              | inr z ↦ rw z (c.named j p o)
            ]
          ];
          used = λ a n e. ground (
            arith,
            f n,
            c.used a n,
            c.refs m,
            c.apart a key m,
            c.named i (leaving key m) h,
            eq_bytes_iff key a,
          );
          apart = λ a b n x y. ground (arith, c.apart a b n);
          fresh = λ n l. ground (arith, f n, c.fresh n l);
        }
