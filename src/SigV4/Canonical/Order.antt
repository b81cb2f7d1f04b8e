-- ===== src/SigV4/Canonical/Order.antt =====
-- The canonical query string does not depend on the order in which a map is visited.
use mathlib.Core.HLevel.{hedberg}
use mathlib.Core.List.{Perm, Permᴰ}
use mathlib.Core.Logic.{∥∥₁_elim}
use native.Mathlib.Decide.{ℕ_discrete}
use pterodactyl_proxmox_back.Prelude.{
  ◌≡◌, refl, sym, ap, ◌∙◌, inl, inr, Option, List, [], ◌∷◌, map, if◌then◌else◌, Bool-cases, Bytes,
}
use pterodactyl_proxmox_back.Sorting.{insert_all, sort, insert_all-append, insert_all_comm}
use pterodactyl_proxmox_back.Sorting.Pairs.{less_pair, less_pair-StrictOrder}
use pterodactyl_proxmox_back.SigV4.Canonical.{
  is_excluded, pairs_of, query_pairs, assign, canonical_query_string,
}
use pterodactyl_proxmox_back.Strings.{join}

abbrev Query : Type 0
Query = List (Bytes × List Bytes)

sorted_pairs : Option Bytes → Query → List (Bytes × Bytes)
sorted_pairs exclude q = sort less_pair (query_pairs exclude q)

chosen : Option Bytes → Bytes × List Bytes → List (Bytes × Bytes)
chosen exclude (k, vs) = if is_excluded exclude k then [] else pairs_of k vs

sorted_pairs-cons :
    (exclude : Option Bytes) (e : Bytes × List Bytes) (q : Query)
    → sorted_pairs exclude (e ∷ q)
      ≡ insert_all less_pair (chosen exclude e) (sorted_pairs exclude q)
unfolding sorted_pairs query_pairs chosen sort
sorted_pairs-cons exclude (k, vs) q = elim (Bool-cases (is_excluded exclude k)) [
  | inl e ↦ rw (e)
  | inr e ↦ rw (e) (insert_all-append less_pair (pairs_of k vs) (query_pairs exclude q) [])
]

sorted_pairs_perm :
    (exclude : Option Bytes) {q p : Query}
    → Permᴰ q p
    → sorted_pairs exclude q ≡ sorted_pairs exclude p
sorted_pairs_perm exclude Permᴰ.nil = refl
sorted_pairs_perm exclude (Permᴰ.cons {a} {b} {l₁} {l₂} e d) =
    sorted_pairs-cons exclude a l₁
    ∙ ap (insert_all less_pair (chosen exclude a)) (sorted_pairs_perm exclude d)
    ∙ ap (λ x. insert_all less_pair (chosen exclude x) (sorted_pairs exclude l₂)) e
    ∙ sym (sorted_pairs-cons exclude b l₂)
sorted_pairs_perm exclude (Permᴰ.swap {a} {b} {a'} {b'} {l} e f) =
    sorted_pairs-cons exclude a (b ∷ l)
    ∙ ap (insert_all less_pair (chosen exclude a)) (sorted_pairs-cons exclude b l)
    ∙ insert_all_comm less_pair-StrictOrder (chosen exclude a) (chosen exclude b)
        (sorted_pairs exclude l)
    ∙ ap
        (λ x.
          insert_all less_pair (chosen exclude b)
            (insert_all less_pair (chosen exclude x) (sorted_pairs exclude l)))
        e
    ∙ ap
        (λ x.
          insert_all less_pair (chosen exclude x)
            (insert_all less_pair (chosen exclude b') (sorted_pairs exclude l)))
        f
    ∙ ap (insert_all less_pair (chosen exclude a')) (sym (sorted_pairs-cons exclude b' l))
    ∙ sym (sorted_pairs-cons exclude a' (b' ∷ l))
sorted_pairs_perm exclude (Permᴰ.trans d e) =
    sorted_pairs_perm exclude d ∙ sorted_pairs_perm exclude e

Bytes-set : IsSet Bytes
Bytes-set = hedberg (hlevel ℕ_discrete)

canonical_query_string_permᴰ :
    (exclude : Option Bytes) {q p : Query}
    → Permᴰ q p
    → canonical_query_string q exclude ≡ canonical_query_string p exclude
unfolding canonical_query_string sorted_pairs
canonical_query_string_permᴰ exclude d =
    ap (λ ps. join (b'&' ∷ []) (map assign ps)) (sorted_pairs_perm exclude d)

-- In whatever order Go visits the query parameters, the canonical query string is the same,
-- with or without an excluded parameter.
pub canonical_query_string_perm :
    (q p : Query) (exclude : Option Bytes)
    → Perm q p
    → canonical_query_string q exclude ≡ canonical_query_string p exclude
canonical_query_string_perm q p exclude h =
    ∥∥₁_elim h (Bytes-set _ _) (λ d. canonical_query_string_permᴰ exclude d)
