-- ===== src/Store/Multipart/Scan.antt =====
-- internal/store/multipart.go: the scan of the parts of one upload, and the deletion of what it
-- has gathered.
use pterodactyl_proxmox_back.Prelude.{
  ◌≡◌, refl, sym, ap, Bool, true, false, ◌&&◌, ◌||◌, List, [], ◌∷◌, arith, if◌then◌else◌, Bytes,
  All,
}
use pterodactyl_proxmox_back.Bolt.{Bolt}
use pterodactyl_proxmox_back.Bolt.Lists.{remove_pair, IsSorted}
use pterodactyl_proxmox_back.Bolt.Scan.{
  seek, with_prefix, with_prefix_stop, with_prefix-seek, NotBefore, seek-NotBefore,
}
use pterodactyl_proxmox_back.Store.Multipart.{gather_keys, delete_keys, Pairs}
use pterodactyl_proxmox_back.Strings.{eq_bytes, has_prefix}
use pterodactyl_proxmox_back.Strings.Equal.{eq_bytes_iff, eq_bytes_refl}

-- the pairs whose key does not have the prefix
unfoldable pub without_prefix : Bytes → Pairs → Pairs
without_prefix p [] = []
without_prefix p ((k, v) ∷ l) =
    let rest = without_prefix p l in if has_prefix k p then rest else (k, v) ∷ rest

keys_of : Pairs → List Bytes
keys_of [] = []
keys_of ((k, v) ∷ l) = k ∷ keys_of l

is_among : Bytes → List Bytes → Bool
is_among k [] = false
is_among k (j ∷ js) = eq_bytes j k || is_among k js

-- the pairs whose keys are not among `ks`
without : List Bytes → Pairs → Pairs
unfolding is_among
without ks [] = []
without ks ((k, v) ∷ l) = let rest = without ks l in if is_among k ks then rest else (k, v) ∷ rest

without-nil : (l : Pairs) → without [] l ≡ l
unfolding without is_among
without-nil [] = refl
without-nil ((k, v) ∷ l) = ground (arith, without-nil l)

without-cons :
    (k : Bytes) (ks : List Bytes) (l : Pairs) → without ks (remove_pair k l) ≡ without (k ∷ ks) l
unfolding without is_among remove_pair
without-cons k ks [] = refl
without-cons k ks ((j, v) ∷ l) =
    ground (arith, without-cons k ks l, eq_bytes_iff k j, eq_bytes_iff j k)

gather_keys-with_prefix :
    (p : Bytes) (l : Pairs)
    → IsSorted l
    → NotBefore p l
    → gather_keys p l ≡ keys_of (with_prefix p l)
unfolding gather_keys keys_of with_prefix
gather_keys-with_prefix p [] s n = refl
gather_keys-with_prefix p ((k, v) ∷ l) s n =
    ground (arith, gather_keys-with_prefix p l s.1 n.1, with_prefix_stop k v p l n.0, s.0)

is_among-with_prefix :
    (p k : Bytes) (l : Pairs)
    → is_among k (keys_of (with_prefix p l)) ≡ (is_among k (keys_of l) && has_prefix k p)
unfolding is_among keys_of with_prefix
is_among-with_prefix p k [] = refl
is_among-with_prefix p k ((j, v) ∷ l) =
    ground (arith, is_among-with_prefix p k l, eq_bytes_iff j k, ap (λ x. has_prefix x p))

IsAmong : Pairs → Pairs → Type 0
IsAmong l m = All (λ e. is_among e.0 (keys_of l) ≡ true) m

IsAmong-cons : (k v : Bytes) (l m : Pairs) → IsAmong l m → IsAmong ((k, v) ∷ l) m
unfolding IsAmong is_among keys_of
IsAmong-cons k v l [] h = tt
IsAmong-cons k v l (e ∷ m) h = (ground arith, IsAmong-cons k v l m h.1)

IsAmong-self : (l : Pairs) → IsAmong l l
unfolding IsAmong is_among keys_of
IsAmong-self [] = tt
IsAmong-self ((k, v) ∷ l) = (ground (arith, eq_bytes_refl k), IsAmong-cons k v l l (IsAmong-self l))

without-keys :
    (p : Bytes) (l m : Pairs)
    → IsAmong l m
    → without (keys_of (with_prefix p l)) m ≡ without_prefix p m
unfolding IsAmong without without_prefix
without-keys p l [] h = refl
without-keys p l ((k, v) ∷ m) h = ground (arith, is_among-with_prefix p k l, without-keys p l m h.1)

module _ (bolt : Bolt) where
  delete_keys-without :
      (ks : List Bytes) (b : bolt.Bucket)
      → bolt.pairs (delete_keys bolt ks b) ≡ without ks (bolt.pairs b)
  unfolding delete_keys
  delete_keys-without [] b = sym (without-nil (bolt.pairs b))
  delete_keys-without (k ∷ ks) b =
      rw (delete_keys-without ks (bolt.delete k b), bolt.pairs_delete k b)
        (without-cons k ks (bolt.pairs b))

  -- deleting the gathered keys leaves the pairs without the prefix
  pub delete_keys-gather_keys :
      (p : Bytes) (b : bolt.Bucket)
      → bolt.pairs (delete_keys bolt (gather_keys p (seek p (bolt.pairs b))) b)
        ≡ without_prefix p (bolt.pairs b)
  delete_keys-gather_keys p b =
      let l = bolt.pairs b in
      let behind = seek-NotBefore p l (bolt.pairs_sorted b) in
      rw
        (
          delete_keys-without (gather_keys p (seek p l)) b,
          gather_keys-with_prefix p (seek p l) behind.0 behind.1,
          with_prefix-seek p l,
        )
        (without-keys p l l (IsAmong-self l))
