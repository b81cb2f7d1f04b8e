-- ===== src/Store/Keys.antt =====
-- internal/store/bbolt.go: the composite keys.
use pterodactyl_proxmox_back.Strings.Decimal.Order.{lt_bytes-padded}
use pterodactyl_proxmox_back.Prelude.Int.{ℤ, pos}
use pterodactyl_proxmox_back.Strings.Decimal.{padded}
use pterodactyl_proxmox_back.Strings.{eq_bytes, lt_bytes, has_prefix}
use pterodactyl_proxmox_back.Prelude.{
  ℕ, suc, ◌+◌, ◌<◌, ◌≡◌, ◌∙◌, ◌&&◌, [], ◌∷◌, ◌++◌, arith, ltb, Bytes, length, length-append,
}
use pterodactyl_proxmox_back.Strings.Split.{NoByte, first_separator}

-- objectMapKey
unfoldable pub object_map_key : Bytes → Bytes → Bytes
object_map_key bucket key = bucket ++ (0 ∷ key)

-- partKey: `%s/%08d`
unfoldable pub part_key : Bytes → ℤ → Bytes
part_key upload_id part_number = upload_id ++ (b'/' ∷ padded 8 part_number)

-- Object keys of bucket names without a NUL byte are equal only for one bucket and key.
pub object_map_key_injective :
    (b k c j : Bytes)
    → NoByte 0 b
    → NoByte 0 c
    → object_map_key b k ≡ object_map_key c j
    → (b ≡ c) × (k ≡ j)
unfolding object_map_key
object_map_key_injective b k c j hb hc e = first_separator 0 b c k j hb hc e

pub length-object_map_key : (b k : Bytes) → length (object_map_key b k) ≡ suc (length b + length k)
unfolding object_map_key
length-object_map_key b k = rw (length-append b (0 ∷ k)) (omega arith)

has_prefix_nul :
    (b c k p : Bytes)
    → NoByte 0 b
    → NoByte 0 c
    → has_prefix (b ++ (0 ∷ k)) (c ++ (0 ∷ p)) ≡ (eq_bytes b c && has_prefix k p)
unfolding has_prefix eq_bytes
has_prefix_nul [] [] k p hb hc = ground arith
has_prefix_nul [] (x ∷ c) k p hb hc = ground arith
has_prefix_nul (y ∷ b) [] k p hb hc = ground arith
has_prefix_nul (y ∷ b) (x ∷ c) k p hb hc = ground (arith, has_prefix_nul b c k p)

-- An object key has another as its prefix exactly if the buckets are equal and the keys so.
pub has_prefix-object_map_key :
    (b c k p : Bytes)
    → NoByte 0 b
    → NoByte 0 c
    → has_prefix (object_map_key b k) (object_map_key c p) ≡ (eq_bytes b c && has_prefix k p)
unfolding object_map_key
has_prefix-object_map_key b c k p hb hc = has_prefix_nul b c k p hb hc

lt_bytes_after : (c : ℕ) (b k j : Bytes) → lt_bytes (b ++ (c ∷ k)) (b ++ (c ∷ j)) ≡ lt_bytes k j
unfolding lt_bytes
lt_bytes_after c [] k j = ground arith
lt_bytes_after c (x ∷ b) k j = ground (arith, lt_bytes_after c b k j)

-- In one bucket, object keys are in the order of the keys.
pub lt_bytes-object_map_key :
    (b k j : Bytes) → lt_bytes (object_map_key b k) (object_map_key b j) ≡ lt_bytes k j
unfolding object_map_key
lt_bytes-object_map_key b k j = lt_bytes_after 0 b k j

-- The part keys of one upload are in the order of the parts' numbers, below 100,000,000.
pub lt_bytes-part_key :
    (upload_id : Bytes) (n m : ℕ)
    → n < 100000000
    → m < 100000000
    → lt_bytes (part_key upload_id (pos n)) (part_key upload_id (pos m)) ≡ ltb n m
unfolding part_key
lt_bytes-part_key upload_id n m hn hm =
    lt_bytes_after b'/' upload_id (padded 8 (pos n)) (padded 8 (pos m))
    ∙ lt_bytes-padded 7 n m hn hm
