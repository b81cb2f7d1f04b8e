-- ===== src/Bolt/Lists.antt =====
-- Lists of pairs in the order of their keys.
use pterodactyl_proxmox_back.Prelude.{
  ◌≡◌, refl, true, Option, none, some, List, [], ◌∷◌, arith, if◌then◌else◌, Bytes, All,
}
use pterodactyl_proxmox_back.Strings.{eq_bytes, lt_bytes}
use pterodactyl_proxmox_back.Strings.Equal.{
  eq_bytes_iff, lt_bytes_irrefl, lt_bytes_trans, lt_bytes_total,
}

abbrev Pairs : Type 0
Pairs = List (Bytes × Bytes)

-- Bucket.Get
unfoldable pub lookup : Bytes → Pairs → Option Bytes
lookup k [] = none
lookup k ((j, v) ∷ l) = if eq_bytes j k then some v else lookup k l

unfoldable pub insert_pair : Bytes → Bytes → Pairs → Pairs
insert_pair k v [] = (k, v) ∷ []
insert_pair k v ((j, w) ∷ l) =
    let rest = insert_pair k v l in
    if lt_bytes k j then (k, v) ∷ (j, w) ∷ l else if eq_bytes k j then (k, v) ∷ l else (j, w) ∷ rest

unfoldable pub remove_pair : Bytes → Pairs → Pairs
remove_pair k [] = []
remove_pair k ((j, w) ∷ l) =
    let rest = remove_pair k l in if eq_bytes j k then rest else (j, w) ∷ rest

abbrev pub Above : Bytes → Pairs → Type 0
Above k l = All (λ e. lt_bytes k e.0 ≡ true) l

abbrev pub IsSorted : Pairs → Type 0
IsSorted [] = Unit
IsSorted ((k, v) ∷ l) = Above k l × IsSorted l

pub lookup-insert_pair :
    (k v j : Bytes) (l : Pairs)
    → lookup j (insert_pair k v l) ≡ (if eq_bytes k j then some v else lookup j l)
unfolding lookup insert_pair
lookup-insert_pair k v j [] = refl
lookup-insert_pair k v j ((i, w) ∷ l) = ground (
  arith,
  eq_bytes_iff k j,
  eq_bytes_iff k i,
  eq_bytes_iff i j,
  lt_bytes_irrefl k,
  lookup-insert_pair k v j l,
)

pub lookup-remove_pair :
    (k j : Bytes) (l : Pairs)
    → lookup j (remove_pair k l) ≡ (if eq_bytes k j then none else lookup j l)
unfolding lookup remove_pair
lookup-remove_pair k j [] = ground arith
lookup-remove_pair k j ((i, w) ∷ l) =
    ground (arith, eq_bytes_iff k j, eq_bytes_iff i k, eq_bytes_iff i j, lookup-remove_pair k j l)

insert_pair-Above :
    (i k v : Bytes) (l : Pairs) → lt_bytes i k ≡ true → Above i l → Above i (insert_pair k v l)
unfolding insert_pair
insert_pair-Above i k v [] h a = (h, tt)
insert_pair-Above i k v ((j, w) ∷ l) h a = ground (arith, insert_pair-Above i k v l)

pub Above-trans : (i k : Bytes) (l : Pairs) → lt_bytes i k ≡ true → Above k l → Above i l
Above-trans i k [] h a = tt
Above-trans i k ((j, w) ∷ l) h a = (lt_bytes_trans i k j h a.0, Above-trans i k l h a.1)

pub insert_pair-IsSorted : (k v : Bytes) (l : Pairs) → IsSorted l → IsSorted (insert_pair k v l)
unfolding insert_pair
insert_pair-IsSorted k v [] h = (tt, tt)
insert_pair-IsSorted k v ((j, w) ∷ l) h = ground (
  arith,
  Above-trans k j l,
  eq_bytes_iff k j,
  insert_pair-Above j k v l,
  insert_pair-IsSorted k v l,
  lt_bytes_total k j,
)

remove_pair-Above : (i k : Bytes) (l : Pairs) → Above i l → Above i (remove_pair k l)
unfolding remove_pair
remove_pair-Above i k [] a = tt
remove_pair-Above i k ((j, w) ∷ l) a = ground (arith, remove_pair-Above i k l)

pub remove_pair-IsSorted : (k : Bytes) (l : Pairs) → IsSorted l → IsSorted (remove_pair k l)
unfolding remove_pair
remove_pair-IsSorted k [] h = tt
remove_pair-IsSorted k ((j, w) ∷ l) h =
    ground (arith, remove_pair-Above j k l, remove_pair-IsSorted k l)
