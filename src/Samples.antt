-- ===== src/Samples.antt =====
-- Concrete functions in the place of what the bridge does not implement, for the tests: a sum
-- and an HMAC that only add up bytes.
use pterodactyl_proxmox_back.Prelude.{
  ℕ, zero, suc, ◌+◌, ◌%◌, refl, List, [], ◌∷◌, ◌++◌, arith, Bytes, codes, All, IsByte,
}
use pterodactyl_proxmox_back.Bolt.{Bolt}
use pterodactyl_proxmox_back.Bolt.Lists.{
  insert_pair, remove_pair, IsSorted, insert_pair-IsSorted, remove_pair-IsSorted,
}
use pterodactyl_proxmox_back.Store.{Fault, Db}
use pterodactyl_proxmox_back.IdMap.{Sha256}
use pterodactyl_proxmox_back.SigV4.Canonical.{Crypto}

abbrev pub total : Bytes → ℕ
total [] = 0
total (c ∷ s) = c + total s

abbrev pub repeat : ℕ → ℕ → Bytes
repeat zero c = []
repeat (suc n) c = c ∷ repeat n c

repeat-IsByte : (n c : ℕ) → IsByte c → All IsByte (repeat n c)
repeat-IsByte zero c h = tt
repeat-IsByte (suc n) c h = (h, repeat-IsByte n c h)

pub toy_sum-IsByte : (m : Bytes) → All IsByte (repeat 32 (total m % 256))
toy_sum-IsByte m = repeat-IsByte 32 (total m % 256) (omega arith)

abbrev pub toy_sha : Sha256
toy_sha = record {
  sum = λ m. repeat 32 (total m % 256);
  length_sum = λ m. refl;
  sum_IsByte = toy_sum-IsByte;
}

abbrev pub toy_crypto : Crypto
toy_crypto = record { sha = toy_sha; hmac = λ k m. repeat 2 ((total k + total m) % 256) }

-- A bucket of bbolt as the sorted list of its pairs.
abbrev pub toy_bolt : Bolt
toy_bolt = record {
  Bucket = (l : List (Bytes × Bytes)) × IsSorted l;
  put = λ k v b. (insert_pair k v b.0, insert_pair-IsSorted k v b.0 b.1);
  delete = λ k b. (remove_pair k b.0, remove_pair-IsSorted k b.0 b.1);
  pairs = λ b. b.0;
  pairs_put = λ k v b. refl;
  pairs_delete = λ k b. refl;
  pairs_sorted = λ b. b.1;
}

abbrev pub empty_db : List Fault → Db toy_bolt
empty_db faults = record {
  objects = ([], tt);
  multipart_uploads = ([], tt);
  multipart_parts = ([], tt);
  faults = faults;
}

-- the chunk of a text with the header of a size and a signature
abbrev line_end : Bytes
line_end = 13 ∷ 10 ∷ []

abbrev pub framed : Bytes → Bytes → Bytes → Bytes
framed size signature piece =
    size ++ (codes ";chunk-signature=" ++ (signature ++ (line_end ++ (piece ++ line_end))))

-- a text of three bytes in a chunk, and the empty chunk, as they are signed for "abc"
abbrev pub body_of : Bytes → Bytes
body_of text = framed (codes "3") (codes "4040") text ++ framed (codes "0") (codes "3636") []
