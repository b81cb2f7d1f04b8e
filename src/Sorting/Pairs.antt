-- ===== src/Sorting/Pairs.antt =====
-- Byte order, and pairs by their first and then by their second text, are strict total orders.
use pterodactyl_proxmox_back.Prelude.{◌≡◌, Bool, true, false, not, arith, if◌then◌else◌, Bytes}
use pterodactyl_proxmox_back.Strings.{eq_bytes, lt_bytes}
use pterodactyl_proxmox_back.Strings.Equal.{
  eq_bytes_iff, eq_bytes_refl, lt_bytes_irrefl, lt_bytes_trans, lt_bytes_total,
}
use pterodactyl_proxmox_back.Sorting.{StrictOrder}

pub lt_bytes-StrictOrder : StrictOrder lt_bytes
lt_bytes-StrictOrder = record {
  irrefl = lt_bytes_irrefl;
  trans = lt_bytes_trans;
  total = lt_bytes_total;
}

-- the `less` of canonicalQueryString
unfoldable pub less_pair : Bytes × Bytes → Bytes × Bytes → Bool
less_pair (k, v) (j, w) = if not (eq_bytes k j) then lt_bytes k j else lt_bytes v w

less_pair_irrefl : (a : Bytes × Bytes) → less_pair a a ≡ false
unfolding less_pair
less_pair_irrefl (k, v) = rw (eq_bytes_refl k) (lt_bytes_irrefl v)

less_pair_trans :
    (a b c : Bytes × Bytes) → less_pair a b ≡ true → less_pair b c ≡ true → less_pair a c ≡ true
unfolding less_pair
less_pair_trans (k, v) (j, w) (i, u) p q = ground (
  arith,
  eq_bytes_iff k j,
  eq_bytes_iff j i,
  eq_bytes_iff k i,
  lt_bytes_trans k j i,
  lt_bytes_trans v w u,
  lt_bytes_trans k j k,
  lt_bytes_irrefl k,
)

less_pair_total : (a b : Bytes × Bytes) → less_pair a b ≡ false → less_pair b a ≡ false → a ≡ b
unfolding less_pair
less_pair_total (k, v) (j, w) p q =
    ground (arith, eq_bytes_iff k j, eq_bytes_iff j k, lt_bytes_total k j, lt_bytes_total v w)

pub less_pair-StrictOrder : StrictOrder less_pair
less_pair-StrictOrder = record {
  irrefl = less_pair_irrefl;
  trans = less_pair_trans;
  total = less_pair_total;
}
