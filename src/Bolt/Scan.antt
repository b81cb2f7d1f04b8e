-- ===== src/Bolt/Scan.antt =====
-- A cursor that seeks a prefix and goes on while it is there visits the keys with the prefix.
use pterodactyl_proxmox_back.Bolt.Lists.{insert_pair, Above, IsSorted, Above-trans}
use pterodactyl_proxmox_back.Strings.{lt_bytes, has_prefix}
use pterodactyl_proxmox_back.Strings.Equal.{eq_bytes_iff, lt_bytes_trans}
use pterodactyl_proxmox_back.Prelude.{
  ◌≡◌, refl, ap, inl, inr, true, false, List, [], ◌∷◌, arith, if◌then◌else◌, Bool-cases, Bytes, All,
}

abbrev Pairs : Type 0
Pairs = List (Bytes × Bytes)

-- Cursor.Seek: from the first key that is not before `p`
unfoldable pub seek : Bytes → Pairs → Pairs
seek p [] = []
seek p ((k, v) ∷ l) = let rest = seek p l in if lt_bytes k p then rest else (k, v) ∷ l

unfoldable pub with_prefix : Bytes → Pairs → Pairs
with_prefix p [] = []
with_prefix p ((k, v) ∷ l) =
    let rest = with_prefix p l in if has_prefix k p then (k, v) ∷ rest else rest

-- a key before the prefix does not have it
before_prefix : (k p : Bytes) → lt_bytes k p ≡ true → has_prefix k p ≡ false
unfolding lt_bytes has_prefix
before_prefix [] [] h = cc
before_prefix [] (c ∷ p) h = refl
before_prefix (d ∷ k) [] h = cc
before_prefix (d ∷ k) (c ∷ p) h = ground (arith, before_prefix k p)

-- keys between a key with the prefix, or the prefix, and one without it are behind the prefix
past_prefix :
    (k j p : Bytes)
    → lt_bytes k p ≡ false
    → has_prefix k p ≡ false
    → lt_bytes k j ≡ true
    → (lt_bytes j p ≡ false) × (has_prefix j p ≡ false)
unfolding lt_bytes has_prefix
past_prefix [] j [] h n l = cc
past_prefix [] j (c ∷ p) h n l = cc
past_prefix (d ∷ k) j [] h n l = cc
past_prefix (d ∷ k) [] (c ∷ p) h n l = cc
past_prefix (d ∷ k) (e ∷ j) (c ∷ p) h n l = ground (arith, past_prefix k j p)

none_past :
    (k p : Bytes) (l : Pairs)
    → lt_bytes k p ≡ false
    → has_prefix k p ≡ false
    → Above k l
    → with_prefix p l ≡ []
unfolding with_prefix
none_past k p [] h n a = refl
none_past k p ((j, w) ∷ l) h n a = rw ((past_prefix k j p h n a.0).1) (none_past k p l h n a.1)

-- The first key without the prefix ends the scan.
pub with_prefix_stop :
    (k v p : Bytes) (l : Pairs)
    → lt_bytes k p ≡ false
    → has_prefix k p ≡ false
    → Above k l
    → with_prefix p ((k, v) ∷ l) ≡ []
unfolding with_prefix
with_prefix_stop k v p l h n a = rw n (none_past k p l h n a)

pub with_prefix-seek : (p : Bytes) (l : Pairs) → with_prefix p (seek p l) ≡ with_prefix p l
unfolding seek with_prefix
with_prefix-seek p [] = refl
with_prefix-seek p ((k, v) ∷ l) = elim (Bool-cases (lt_bytes k p)) [
  | inl e ↦ rw (e, before_prefix k p e) (with_prefix-seek p l)
  | inr e ↦ rw e
]

-- Behind the place that is sought, no key is before the prefix.
abbrev pub NotBefore : Bytes → Pairs → Type 0
NotBefore p l = All (λ e. lt_bytes e.0 p ≡ false) l

stays_behind : (k j p : Bytes) → lt_bytes k p ≡ false → lt_bytes k j ≡ true → lt_bytes j p ≡ false
stays_behind k j p h l = elim (Bool-cases (lt_bytes j p)) [
  | inl e ↦ cc (h, lt_bytes_trans k j p l e)
  | inr e ↦ e
]

Above-NotBefore : (k p : Bytes) (l : Pairs) → lt_bytes k p ≡ false → Above k l → NotBefore p l
Above-NotBefore k p [] h a = tt
Above-NotBefore k p ((j, w) ∷ l) h a = (stays_behind k j p h a.0, Above-NotBefore k p l h a.1)

pub seek-NotBefore :
    (p : Bytes) (l : Pairs) → IsSorted l → IsSorted (seek p l) × NotBefore p (seek p l)
unfolding seek
seek-NotBefore p [] h = (tt, tt)
seek-NotBefore p ((k, v) ∷ l) h = elim (Bool-cases (lt_bytes k p)) [
  | inl e ↦ rw e (seek-NotBefore p l h.1)
  | inr e ↦ rw e (h, (e, Above-NotBefore k p l e h.0))
]

Above-with_prefix : (k p : Bytes) (l : Pairs) → Above k l → Above k (with_prefix p l)
unfolding with_prefix
Above-with_prefix k p [] a = tt
Above-with_prefix k p ((j, w) ∷ l) a = ground (arith, Above-with_prefix k p l a.1)

pub with_prefix-IsSorted : (p : Bytes) (l : Pairs) → IsSorted l → IsSorted (with_prefix p l)
unfolding with_prefix
with_prefix-IsSorted p [] s = tt
with_prefix-IsSorted p ((j, w) ∷ l) s =
    ground (arith, with_prefix-IsSorted p l s.1, Above-with_prefix j p l s.0)

insert_pair-first : (k v : Bytes) (l : Pairs) → Above k l → insert_pair k v l ≡ (k, v) ∷ l
unfolding insert_pair
insert_pair-first k v [] a = refl
insert_pair-first k v ((j, w) ∷ l) a = rw a.0 refl

-- the pairs with a prefix after a pair with it is put
pub with_prefix-insert_pair :
    (k v p : Bytes) (l : Pairs)
    → IsSorted l
    → has_prefix k p ≡ true
    → with_prefix p (insert_pair k v l) ≡ insert_pair k v (with_prefix p l)
unfolding with_prefix insert_pair
with_prefix-insert_pair k v p [] s h = rw h refl
with_prefix-insert_pair k v p ((j, w) ∷ l) s h = ground (
  arith,
  with_prefix-insert_pair k v p l s.1,
  eq_bytes_iff k j,
  Above-trans k j l,
  insert_pair-first k v (with_prefix p l),
  Above-with_prefix k p l,
  s.0,
  ap (λ x. has_prefix x p),
)
