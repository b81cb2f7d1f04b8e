-- ===== src/IdMap/Namespace.antt =====
-- Bucket names to namespace paths.
use pterodactyl_proxmox_back.Prelude.{
  ℕ, ◌≡◌, refl, ap, ◌∙◌, ◌≢◌, inl, inr, List, [], ◌∷◌, ◌==◌, Bool-cases, Bytes, All,
}
use pterodactyl_proxmox_back.Strings.{push_head, split, join}
use pterodactyl_proxmox_back.Strings.Split.{NoByte, split-NoByte, split-join}
use pterodactyl_proxmox_back.IdMap.{non_empty_parts, sanitize_namespace}

-- The names of a namespace's levels, from its path; the root namespace has none.
unfoldable pub levels : Bytes → List Bytes
unfolding split
levels [] = []
levels (c ∷ path) = split b'/' (c ∷ path)

abbrev pub IsLevel : Bytes → Type 0
IsLevel level = (level ≢ []) × NoByte b'/' level × NoByte b'.' level

non_empty_parts-IsLevel :
    (ps : List Bytes)
    → All (NoByte b'.') ps
    → All (NoByte b'/') ps
    → All IsLevel (non_empty_parts ps)
unfolding non_empty_parts
non_empty_parts-IsLevel [] h k = tt
non_empty_parts-IsLevel ([] ∷ ps) h k = non_empty_parts-IsLevel ps h.1 k.1
non_empty_parts-IsLevel ((c ∷ p) ∷ ps) h k =
    (((λ e. cc e), k.0, h.0), non_empty_parts-IsLevel ps h.1 k.1)

-- A byte that the text lacks is lacking in its parts.
push_head-NoByte :
    (b c : ℕ) (ps : List Bytes) → c ≢ b → All (NoByte b) ps → All (NoByte b) (push_head c ps)
push_head-NoByte b c [] ne h = ((ne, tt), tt)
push_head-NoByte b c (p ∷ ps) ne h = ((ne, h.0), h.1)

split-NoByte_other : (b sep : ℕ) (s : Bytes) → NoByte b s → All (NoByte b) (split sep s)
unfolding split
split-NoByte_other b sep [] h = (tt, tt)
split-NoByte_other b sep (c ∷ s) h = elim (Bool-cases (c == sep)) [
  | inl e ↦ rw e (tt, split-NoByte_other b sep s h.1)
  | inr e ↦ rw e (push_head-NoByte b c (split sep s) h.0 (split-NoByte_other b sep s h.1))
]

levels-join : (ps : List Bytes) → All IsLevel ps → levels (join (b'/' ∷ []) ps) ≡ ps
unfolding levels join
levels-join [] h = refl
levels-join ([] ∷ ps) h = absurd (h.0.0 refl)
levels-join ((c ∷ p) ∷ []) h = split-join b'/' (c ∷ p) [] (h.0.1, tt)
levels-join ((c ∷ p) ∷ q ∷ ps) h =
    split-join b'/' (c ∷ p) (q ∷ ps) (h.0.1, (h.1.0.1, slashless ps h.1.1))
  where
    slashless : (qs : List Bytes) → All IsLevel qs → All (NoByte b'/') qs
    slashless [] k = tt
    slashless (x ∷ qs) k = (k.0.1, slashless qs k.1)

parts-IsLevel :
    (bucket : Bytes) → NoByte b'/' bucket → All IsLevel (non_empty_parts (split b'.' bucket))
parts-IsLevel bucket h =
    non_empty_parts-IsLevel (split b'.' bucket) (split-NoByte b'.' bucket)
      (split-NoByte_other b'/' b'.' bucket h)

-- A bucket name without a slash is mapped to the namespace path whose levels are, in order, the
-- parts of the name between its dots, less the empty ones; and no level of that path is empty or
-- holds a slash or a dot.
pub sanitize_namespace-levels :
    (bucket : Bytes)
    → NoByte b'/' bucket
    → (levels (sanitize_namespace bucket) ≡ non_empty_parts (split b'.' bucket))
      × All IsLevel (levels (sanitize_namespace bucket))
unfolding sanitize_namespace
sanitize_namespace-levels bucket h =
    let e = levels-join (non_empty_parts (split b'.' bucket)) (parts-IsLevel bucket h) in
    (e, rw e (parts-IsLevel bucket h))

non_empty_parts_of_IsLevel : (ps : List Bytes) → All IsLevel ps → non_empty_parts ps ≡ ps
unfolding non_empty_parts
non_empty_parts_of_IsLevel [] h = refl
non_empty_parts_of_IsLevel ([] ∷ ps) h = absurd (h.0.0 refl)
non_empty_parts_of_IsLevel ((c ∷ p) ∷ ps) h = ap (◌∷◌ (c ∷ p)) (non_empty_parts_of_IsLevel ps h.1)

dotless : (ps : List Bytes) → All IsLevel ps → All (NoByte b'.') ps
dotless [] h = tt
dotless (p ∷ ps) h = (h.0.2, dotless ps h.1)

-- Every namespace with at least one level can be reached: the bucket whose name is the names of
-- the levels, joined by dots, is mapped to the path of those levels.
pub sanitize_namespace-join :
    (p : Bytes) (ps : List Bytes)
    → All IsLevel (p ∷ ps)
    → sanitize_namespace (join (b'.' ∷ []) (p ∷ ps)) ≡ join (b'/' ∷ []) (p ∷ ps)
unfolding sanitize_namespace
sanitize_namespace-join p ps h =
    ap (λ qs. join (b'/' ∷ []) (non_empty_parts qs)) (split-join b'.' p ps (dotless (p ∷ ps) h))
    ∙ ap (join (b'/' ∷ [])) (non_empty_parts_of_IsLevel (p ∷ ps) h)
