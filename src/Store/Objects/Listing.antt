-- ===== src/Store/Objects/Listing.antt =====
-- internal/store/objects.go: what a listing holds, and when it is truncated.
use pterodactyl_proxmox_back.Prelude.{
  ℕ, zero, suc, ◌≡◌, ap, inl, inr, Bool, true, not, ◌&&◌, ◌||◌, Option, some, List, [], ◌∷◌, arith,
  ltb, if◌then◌else◌, Bool-cases, Bytes, length, take, take-nil,
}
use pterodactyl_proxmox_back.Bolt.{Bolt}
use pterodactyl_proxmox_back.Bolt.Scan.{
  seek, with_prefix, with_prefix_stop, with_prefix-seek, NotBefore, seek-NotBefore,
}
use pterodactyl_proxmox_back.Store.{Json, Db}
use pterodactyl_proxmox_back.Store.Keys.{
  object_map_key, has_prefix-object_map_key, lt_bytes-object_map_key,
}
use pterodactyl_proxmox_back.Store.Objects.{
  ObjectMapping, start_after_key, is_skipped, list_loop, list_objects,
}
use pterodactyl_proxmox_back.Strings.{eq_bytes, lt_bytes, has_prefix}
use pterodactyl_proxmox_back.Strings.Split.{NoByte}
use pterodactyl_proxmox_back.Strings.Equal.{eq_bytes_iff}
use pterodactyl_proxmox_back.Bolt.Lists.{IsSorted}
use pterodactyl_proxmox_back.Prelude.Result.{ok}

abbrev pub Pairs : Type 0
Pairs = List (Bytes × Bytes)

-- whether a mapping is one that the listing is asked for
unfoldable pub is_listed : Bytes → Bytes → Bytes → ObjectMapping → Bool
is_listed bucket prefix start_after m =
    eq_bytes m.bucket bucket
    && has_prefix m.key prefix
    && (eq_bytes start_after [] || lt_bytes start_after m.key)

unfoldable pub listed : Bytes → Bytes → Bytes → List ObjectMapping → List ObjectMapping
listed bucket prefix start_after [] = []
listed bucket prefix start_after (m ∷ ms) =
    let rest = listed bucket prefix start_after ms in
    if is_listed bucket prefix start_after m then m ∷ rest else rest

-- the pairs that are not skipped
unfoldable pub not_skipped : Option Bytes → Pairs → Pairs
not_skipped after [] = []
not_skipped after ((k, v) ∷ l) =
    let rest = not_skipped after l in if is_skipped after k then rest else (k, v) ∷ rest

module _ (bolt : Bolt) (json : Json ObjectMapping) where
  -- The pairs hold these mappings: each is at its own key, marshalled.
  abbrev pub Holds : Pairs → List ObjectMapping → Type 0
  Holds [] [] = Unit
  Holds ((k, v) ∷ l) (m ∷ ms) =
      ((k ≡ object_map_key m.bucket m.key) × NoByte 0 m.bucket × (json.unmarshal v ≡ some m))
      × Holds l ms
  Holds _ _ = ⊥

  -- json.Unmarshal of each value
  Decodes : Pairs → List ObjectMapping → Type 0
  Decodes [] [] = Unit
  Decodes ((k, v) ∷ l) (m ∷ ms) = (json.unmarshal v ≡ some m) × Decodes l ms
  Decodes _ _ = ⊥

  picked :
      (bucket prefix start_after : Bytes) (m : ObjectMapping)
      → NoByte 0 bucket
      → NoByte 0 m.bucket
      → (has_prefix (object_map_key m.bucket m.key) (object_map_key bucket prefix)
          && not (is_skipped (start_after_key bucket start_after) (object_map_key m.bucket m.key)))
        ≡ is_listed bucket prefix start_after m
  unfolding is_listed is_skipped eq_bytes
  picked bucket prefix start_after m hb hm =
      rw (has_prefix-object_map_key m.bucket bucket m.key prefix hm hb)
        (elim (Bool-cases (eq_bytes m.bucket bucket)) [
          | inl e ↦ same start_after ((eq_bytes_iff m.bucket bucket).0 e) e
          | inr e ↦ rw e
        ])
    where
      same :
          (start_after : Bytes)
          → m.bucket ≡ bucket
          → eq_bytes m.bucket bucket ≡ true
          → ((eq_bytes m.bucket bucket && has_prefix m.key prefix)
              && not
                  (is_skipped (start_after_key bucket start_after) (object_map_key m.bucket m.key)))
            ≡ (eq_bytes m.bucket bucket
                && has_prefix m.key prefix
                && (eq_bytes start_after [] || lt_bytes start_after m.key))
      same [] q e = rw e (ground arith)
      same (c ∷ s) q e = rw (e, q, lt_bytes-object_map_key bucket (c ∷ s) m.key) (ground arith)

  Decodes-not_skipped :
      (bucket prefix start_after : Bytes) (l : Pairs) (ms : List ObjectMapping)
      → NoByte 0 bucket
      → Holds l ms
      → Decodes
          (not_skipped
            (start_after_key bucket start_after)
            (with_prefix (object_map_key bucket prefix) l))
          (listed bucket prefix start_after ms)
  unfolding Decodes with_prefix not_skipped listed
  Decodes-not_skipped bucket prefix start_after [] [] hb h = tt
  Decodes-not_skipped bucket prefix start_after [] (m ∷ ms) hb h = ground arith
  Decodes-not_skipped bucket prefix start_after (e ∷ l) [] hb h = ground arith
  Decodes-not_skipped bucket prefix start_after ((k, v) ∷ l) (m ∷ ms) hb h = ground (
    arith,
    picked bucket prefix start_after m hb h.0.1,
    ap (λ x. has_prefix x (object_map_key bucket prefix)) h.0.0,
    ap (is_skipped (start_after_key bucket start_after)) h.0.0,
    Decodes-not_skipped bucket prefix start_after l ms hb h.1,
  )

  list_loop-Decodes :
      (p : Bytes) (after : Option Bytes) (room : ℕ) (l : Pairs) (ms : List ObjectMapping)
      → IsSorted l
      → NotBefore p l
      → Decodes (not_skipped after (with_prefix p l)) ms
      → list_loop bolt json p after room l ≡ ok (take room ms, ltb room (length ms))
  unfolding Decodes with_prefix not_skipped list_loop
  list_loop-Decodes p after room [] [] s n d = ground (arith, take-nil {A = ObjectMapping} room)
  list_loop-Decodes p after room [] (m ∷ ms) s n d = ground arith
  list_loop-Decodes p after room ((k, v) ∷ l) [] s n d = ground (
    arith,
    take-nil {A = ObjectMapping} room,
    with_prefix_stop k v p l n.0,
    list_loop-Decodes p after room l [] s.1 n.1,
  )
  list_loop-Decodes p after zero ((k, v) ∷ l) (m ∷ ms) s n d =
      ground
        (arith, with_prefix_stop k v p l n.0, list_loop-Decodes p after zero l (m ∷ ms) s.1 n.1)
  list_loop-Decodes p after (suc room) ((k, v) ∷ l) (m ∷ ms) s n d = ground (
    arith,
    with_prefix_stop k v p l n.0,
    list_loop-Decodes p after (suc room) l (m ∷ ms) s.1 n.1,
    list_loop-Decodes p after room l ms s.1 n.1,
  )

  -- A listing holds the first mappings of the bucket, in the order of their keys, whose key has the
  -- prefix and is behind the start, up to the number asked for; it is truncated exactly if there
  -- are more. (The database holds the mappings `ms` under their keys, and no bucket name has a
  -- NUL byte.)
  pub list_objects-listed :
      (bucket prefix start_after : Bytes) (max_keys : ℕ) (db : Db bolt) (ms : List ObjectMapping)
      → NoByte 0 bucket
      → Holds (bolt.pairs db.objects) ms
      → list_objects bolt json bucket prefix start_after max_keys db
        ≡ ok (
          take max_keys (listed bucket prefix start_after ms),
          ltb max_keys (length (listed bucket prefix start_after ms)),
        )
  unfolding list_objects
  list_objects-listed bucket prefix start_after max_keys db ms hb h =
      let p = object_map_key bucket prefix in
      let l = bolt.pairs db.objects in
      let behind = seek-NotBefore p l (bolt.pairs_sorted db.objects) in
      list_loop-Decodes p (start_after_key bucket start_after) max_keys (seek p l)
        (listed bucket prefix start_after ms) behind.0 behind.1
        (rw (with_prefix-seek p l) (Decodes-not_skipped bucket prefix start_after l ms hb h))
