-- ===== src/Stage/Copy.antt =====
-- internal/stage/staging.go: the loop of ConcatParts copies the parts one behind the other.
use pterodactyl_proxmox_back.Prelude.Steps.{
  ◌>>=◌, ◌>>◌, return, attempt, or_clean, bind_ok, or_clean_ok,
}
use pterodactyl_proxmox_back.Prelude.{
  ◌≡◌, refl, sym, ap, ◌∙◌, ◌≢◌, some, List, [], ◌∷◌, ◌++◌, append_assoc, append-nil, if◌then◌else◌,
  Bytes, All,
}
use pterodactyl_proxmox_back.Disk.{
  Disk, called, file, with_file, open_file, content_of, written, append, remove,
}
use pterodactyl_proxmox_back.Disk.Laws.{file-with_file, open_file_ok, append_ok, file-remove}
use pterodactyl_proxmox_back.Stage.{copy_part, copy_parts}
use pterodactyl_proxmox_back.Prelude.Result.{ok, ok_injective}
use pterodactyl_proxmox_back.Strings.{eq_bytes}
use pterodactyl_proxmox_back.Strings.Equal.{eq_bytes_refl, eq_bytes_ne}
use pterodactyl_proxmox_back.Bolt.Lists.{lookup}

-- the files at the paths hold these texts
abbrev pub Contents : Disk → List Bytes → List Bytes → Type 0
Contents d [] [] = Unit
Contents d (p ∷ ps) (c ∷ cs) = (file p d ≡ some c) × Contents d ps cs
Contents d _ _ = ⊥

abbrev pub Apart : Bytes → List Bytes → Type 0
Apart p ps = All (λ q. p ≢ q) ps

abbrev pub AllApart : List Bytes → Type 0
AllApart [] = Unit
AllApart (p ∷ ps) = Apart p ps × AllApart ps

-- the texts one after the other
unfoldable pub concat : List Bytes → Bytes
concat [] = []
concat (c ∷ cs) = c ++ concat cs

pub Contents-same :
    (d e : Disk) (ps cs : List Bytes)
    → All (λ q. file q e ≡ file q d) ps
    → Contents d ps cs
    → Contents e ps cs
Contents-same d e [] [] a h = tt
Contents-same d e [] (c ∷ cs) a h = elim h [ ]
Contents-same d e (p ∷ ps) [] a h = elim h [ ]
Contents-same d e (p ∷ ps) (c ∷ cs) a h = (a.0 ∙ h.0, Contents-same d e ps cs a.1 h.1)

file-written :
    (p q more seen : Bytes) (d : Disk)
    → file p d ≡ some seen
    → file q (written p more d) ≡ (if eq_bytes p q then some (seen ++ more) else file q d)
file-written p q more seen d h = file-with_file p q (content_of (file p d) ++ more) d ∙ rw h refl

-- what is copied, and what the files hold after it
abbrev pub Copied : Bytes → Bytes → Bytes → Bytes → Disk → Disk → Type 0
Copied partial path seen c d e =
    (file partial e ≡ some (seen ++ c))
    × ((q : Bytes) → partial ≢ q → path ≢ q → file q e ≡ file q d)

pub copy_part_ok :
    (partial path seen c0 : Bytes) (d : Disk) {c : Bytes} {e : Disk}
    → partial ≢ path
    → file partial d ≡ some seen
    → file path d ≡ some c0
    → copy_part partial path d ≡ (ok c, e)
    → (c ≡ c0) × Copied partial path seen c0 d e
unfolding copy_part
copy_part_ok partial path seen c0 d {c = c} {e = e} n f g h =
    let (c1, d1, h1, k1) =
      bind_ok (or_clean (open_file path) (remove partial))
        (λ x.
          or_clean (append partial x) (remove partial) >> (attempt (remove path) >>= λ _. return x))
        d h in
    let (u, d2, h2, k2) =
      bind_ok (or_clean (append partial c1) (remove partial))
        (λ _. attempt (remove path) >>= λ _. return c1) d1 k1 in
    let opened = open_file_ok path d (or_clean_ok (open_file path) (remove partial) d h1) in
    let appended =
      append_ok partial c1 d1 (or_clean_ok (append partial c1) (remove partial) d1 h2) in
    let same : c1 ≡ c0 = cc (opened.0, g) in
    let last : (remove path d2).1 ≡ e = ap (λ r. r.1) k2 in
    let holds : (q : Bytes)
        → file q d2 ≡ (if eq_bytes partial q then some (seen ++ c0) else file q d) =
      λ q.
        ap (file q) appended
        ∙ file-written partial q c1 seen (called d1) (ap (file partial) opened.1 ∙ f)
        ∙ rw (opened.1, same) refl in
    let kept : (q : Bytes) → path ≢ q → file q e ≡ file q d2 =
      λ q m. ap (file q) (sym last) ∙ file-remove path q d2 m in
    (
      sym (ok_injective (ap (λ r. r.0) k2)) ∙ same,
      (
        kept partial (λ x. n (sym x)) ∙ holds partial ∙ rw (eq_bytes_refl partial) refl,
        λ q m1 m2. kept q m2 ∙ holds q ∙ rw (eq_bytes_ne partial q m1) refl,
      ),
    )

pub All-kept :
    (partial path : Bytes) (d e : Disk) (ps : List Bytes)
    → ((q : Bytes) → partial ≢ q → path ≢ q → file q e ≡ file q d)
    → Apart partial ps
    → Apart path ps
    → All (λ q. file q e ≡ file q d) ps
All-kept partial path d e [] k a b = tt
All-kept partial path d e (q ∷ ps) k a b = (k q a.0 b.0, All-kept partial path d e ps k a.1 b.1)

pub copy_parts_ok :
    (partial seen : Bytes) (paths cs : List Bytes) (d : Disk) {c : Bytes} {e : Disk}
    → Apart partial paths
    → AllApart paths
    → file partial d ≡ some seen
    → Contents d paths cs
    → copy_parts partial seen paths d ≡ (ok c, e)
    → (c ≡ seen ++ concat cs) × (file partial e ≡ some (seen ++ concat cs))
unfolding copy_parts concat
copy_parts_ok partial seen [] [] d a b f g h =
    let same = ok_injective (ap (λ r. r.0) h) in
    (
      sym same ∙ sym (append-nil seen),
      ap (file partial) (sym (ap (λ r. r.1) h)) ∙ f ∙ ap some (sym (append-nil seen)),
    )
copy_parts_ok partial seen [] (c ∷ cs) d a b f g h = elim g [ ]
copy_parts_ok partial seen (p ∷ ps) [] d a b f g h = elim g [ ]
copy_parts_ok partial seen (p ∷ ps) (c0 ∷ cs) d a b f g h =
    let (c1, d1, h1, k1) =
      bind_ok (copy_part partial p) (λ x. copy_parts partial (seen ++ x) ps) d h in
    let (same, copied) = copy_part_ok partial p seen c0 d a.0 f g.0 h1 in
    let rest =
      copy_parts_ok partial (seen ++ c0) ps cs d1 a.1 b.1 copied.0
        (Contents-same d d1 ps cs (All-kept partial p d d1 ps copied.1 a.1 b.0) g.1)
        (rw same at k1) in
    rw (append_assoc seen c0 (concat cs)) at rest

pub everywhere :
    (d e : Disk) (ps : List Bytes) → e.files ≡ d.files → All (λ q. file q e ≡ file q d) ps
everywhere d e [] h = tt
everywhere d e (q ∷ ps) h = (ap (lookup q) h, everywhere d e ps h)

pub kept-create :
    (partial : Bytes) (d e : Disk) (ps : List Bytes)
    → Apart partial ps
    → e ≡ with_file partial [] (called d)
    → All (λ q. file q e ≡ file q d) ps
kept-create partial d e [] a m = tt
kept-create partial d e (q ∷ ps) a m = (
  ap (file q) m ∙ file-with_file partial q [] (called d) ∙ rw (eq_bytes_ne partial q a.0) refl,
  kept-create partial d e ps a.1 m,
)
