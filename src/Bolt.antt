-- ===== src/Bolt.antt =====
-- go.etcd.io/bbolt, which is not part of the repository: a bucket is known by its pairs in the
-- order of a cursor. What is assumed of it is what its documentation says of Put and Delete, and
-- that keys are kept in byte order, each once.
pub mod Lists
pub mod Scan
use pterodactyl_proxmox_back.Prelude.{ℕ, ◌≡◌, Bool, ◌&&◌, List, leb, Bytes, length}
use pterodactyl_proxmox_back.Bolt.Lists.{insert_pair, remove_pair, IsSorted}

pub record Bolt : Type 1 where
  pub Bucket : Type 0
  pub put : Bytes → Bytes → Bucket → Bucket
  pub delete : Bytes → Bucket → Bucket
  -- what a cursor visits from the first key on
  pub pairs : Bucket → List (Bytes × Bytes)
  pub pairs_put : (k v : Bytes) (b : Bucket) → pairs (put k v b) ≡ insert_pair k v (pairs b)
  pub pairs_delete : (k : Bytes) (b : Bucket) → pairs (delete k b) ≡ remove_pair k (pairs b)
  pub pairs_sorted : (b : Bucket) → IsSorted (pairs b)

-- a Put with an empty or too long key is refused
abbrev pub max_key_size : ℕ
max_key_size = 32768

unfoldable pub key_fits : Bytes → Bool
key_fits k = leb 1 (length k) && leb (length k) max_key_size
