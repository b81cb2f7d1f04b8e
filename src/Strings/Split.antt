-- ===== src/Strings/Split.antt =====
-- Splitting and joining undo one another.
use mathlib.Core.Path.{subst}
use mathlib.Core.List.{reverse, reverse-append, reverse-cons, reverse-reverse}
use pterodactyl_proxmox_back.Prelude.{
  ℕ, ◌≡◌, refl, sym, ap, ◌∙◌, ◌≢◌, inl, inr, Option, none, some, List, [], ◌∷◌, ◌++◌, append_assoc,
  arith, ◌==◌, ==_iff, ==_refl, ==_ne, Bool-cases, Option-cases, Bytes, All, All-reverse,
}
use pterodactyl_proxmox_back.Strings.{cut, push_head, split, join}

abbrev pub NoByte : ℕ → Bytes → Type 0
NoByte b s = All (λ c. c ≢ b) s

pub split-ne-nil : (sep : ℕ) (s : Bytes) → split sep s ≢ []
unfolding split
split-ne-nil sep [] = ground arith
split-ne-nil sep (c ∷ s) = ground arith

All-push_head :
    (sep c : ℕ) (ps : List Bytes)
    → c ≢ sep
    → All (NoByte sep) ps
    → All (NoByte sep) (push_head c ps)
All-push_head sep c [] ne h = ((ne, tt), tt)
All-push_head sep c (p ∷ ps) ne h = ((ne, h.0), h.1)

pub split-NoByte : (sep : ℕ) (s : Bytes) → All (NoByte sep) (split sep s)
unfolding split
split-NoByte sep [] = (tt, tt)
split-NoByte sep (c ∷ s) = elim (Bool-cases (c == sep)) [
  | inl e ↦ rw e (tt, split-NoByte sep s)
  | inr e ↦ rw e (All-push_head sep c (split sep s) (ground arith) (split-NoByte sep s))
]

-- A part without the separator and what follows a separator.
pub split-append :
    (sep : ℕ) (p s : Bytes) → NoByte sep p → split sep (p ++ (sep ∷ s)) ≡ p ∷ split sep s
unfolding split
split-append sep [] s h = rw (==_refl sep)
split-append sep (c ∷ p) s h = rw (==_ne c sep h.0, split-append sep p s h.1)

pub split_of_NoByte : (sep : ℕ) (p : Bytes) → NoByte sep p → split sep p ≡ p ∷ []
unfolding split
split_of_NoByte sep [] h = refl
split_of_NoByte sep (c ∷ p) h = rw (==_ne c sep h.0, split_of_NoByte sep p h.1)

pub split-join :
    (sep : ℕ) (p : Bytes) (ps : List Bytes)
    → All (NoByte sep) (p ∷ ps)
    → split sep (join (sep ∷ []) (p ∷ ps)) ≡ p ∷ ps
unfolding join
split-join sep p [] h = split_of_NoByte sep p h.0
split-join sep p (q ∷ ps) h =
    split-append sep p (join (sep ∷ []) (q ∷ ps)) h.0 ∙ ap (◌∷◌ p) (split-join sep q ps h.1)

join-push_head :
    (sep : Bytes) (c : ℕ) (ps : List Bytes) → join sep (push_head c ps) ≡ c ∷ join sep ps
unfolding join
join-push_head sep c [] = refl
join-push_head sep c (p ∷ []) = refl
join-push_head sep c (p ∷ q ∷ ps) = refl

join-nil-cons : (sep : Bytes) (ps : List Bytes) → ps ≢ [] → join sep ([] ∷ ps) ≡ sep ++ join sep ps
unfolding join
join-nil-cons sep [] h = absurd (h refl)
join-nil-cons sep (p ∷ ps) h = refl

pub join-split : (sep : ℕ) (s : Bytes) → join (sep ∷ []) (split sep s) ≡ s
unfolding split
join-split sep [] = unfold join in refl
join-split sep (c ∷ s) = elim (Bool-cases (c == sep)) [
  | inl e ↦ rw e (
      join-nil-cons (sep ∷ []) (split sep s) (split-ne-nil sep s)
      ∙ ap (◌∷◌ sep) (join-split sep s)
      ∙ ap (λ (x : ℕ). x ∷ s) (sym ((==_iff c sep).0 e)))
  | inr e ↦ rw e (join-push_head (sep ∷ []) c (split sep s) ∙ ap (◌∷◌ c) (join-split sep s))
]

-- The first separator is where `cut` cuts.
pub cut-append : (sep : ℕ) (p s : Bytes) → NoByte sep p → cut sep (p ++ (sep ∷ s)) ≡ some (p, s)
unfolding cut
cut-append sep [] s h = rw (==_refl sep)
cut-append sep (c ∷ p) s h = rw (==_ne c sep h.0, cut-append sep p s h.1)

pub cut_of_NoByte : (sep : ℕ) (p : Bytes) → NoByte sep p → cut sep p ≡ none
unfolding cut
cut_of_NoByte sep [] h = refl
cut_of_NoByte sep (c ∷ p) h = rw (==_ne c sep h.0, cut_of_NoByte sep p h.1)

pub some_pair_eq :
    {a b c d : Bytes}
    → ◌≡◌ {A = Option (Bytes × Bytes)} (some (a, b)) (some (c, d))
    → (a ≡ c) × (b ≡ d)
some_pair_eq h = (ground arith, ground arith)

-- What `cut` gives is the text around the first separator.
abbrev pub Around : ℕ → Bytes → Bytes → Bytes → Type 0
Around sep s p q = NoByte sep p × (s ≡ p ++ (sep ∷ q))

Around-eq :
    (sep : ℕ) (s : Bytes) {a b p q : Bytes} → a ≡ p → b ≡ q → Around sep s a b → Around sep s p q
Around-eq sep s {a} {b} {p} {q} e f h =
    subst (λ x. Around sep s x q) e (subst (λ y. Around sep s a y) f h)

pub cut-parts : (sep : ℕ) (s p q : Bytes) → cut sep s ≡ some (p, q) → Around sep s p q
unfolding cut
cut-parts sep [] p q h = cc
cut-parts sep (c ∷ s) p q h = elim (Bool-cases (c == sep)) [
  | inl e ↦
      let (a, b) = some_pair_eq (rw e at h) in
      Around-eq sep (c ∷ s) a b (tt, ap (λ (x : ℕ). x ∷ s) ((==_iff c sep).0 e))
  | inr e ↦ elim (Option-cases (cut sep s)) [
    | inl n ↦ absurd (ground arith)
    | inr ((x, y), n) ↦
        let (a, b) = some_pair_eq (rw (e, n) at h) in
        let (free, text) = cut-parts sep s x y n in
        Around-eq sep (c ∷ s) a b ((ground arith, free), ap (◌∷◌ c) text)
  ]
]

-- Texts that agree have the same text before and after their first separator,
pub first_separator :
    (sep : ℕ) (p q s t : Bytes)
    → NoByte sep p
    → NoByte sep q
    → p ++ (sep ∷ s) ≡ q ++ (sep ∷ t)
    → (p ≡ q) × (s ≡ t)
first_separator sep p q s t hp hq e =
    some_pair_eq (sym (cut-append sep p s hp) ∙ ap (cut sep) e ∙ cut-append sep q t hq)

reverse_around : (sep : ℕ) (p s : Bytes) → reverse (p ++ (sep ∷ s)) ≡ reverse s ++ (sep ∷ reverse p)
reverse_around sep p s = simp (reverse-append, reverse-cons, append_assoc)

-- and before and after their last one.
pub last_separator :
    (sep : ℕ) (p q s t : Bytes)
    → NoByte sep s
    → NoByte sep t
    → p ++ (sep ∷ s) ≡ q ++ (sep ∷ t)
    → (p ≡ q) × (s ≡ t)
last_separator sep p q s t hs ht e =
    let (a, b) =
      first_separator sep (reverse s) (reverse t) (reverse p) (reverse q)
        (All-reverse (λ c. c ≢ sep) s hs) (All-reverse (λ c. c ≢ sep) t ht)
        (sym (reverse_around sep p s) ∙ ap reverse e ∙ reverse_around sep q t) in
    (
      sym (reverse-reverse p) ∙ ap reverse b ∙ reverse-reverse q,
      sym (reverse-reverse s) ∙ ap reverse a ∙ reverse-reverse t,
    )
