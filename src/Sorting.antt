-- ===== src/Sorting.antt =====
-- Go's `sort` package by insertion. Its sorts are not stable; under a total order in which only
-- equal items tie, the sorted list is the same however it is found.
pub mod Pairs
use pterodactyl_proxmox_back.Prelude.{
  ◌≡◌, refl, ap, ◌∙◌, inl, inr, Bool, true, false, List, [], ◌∷◌, ◌++◌, if◌then◌else◌, Bool-cases,
  All,
}

pub record StrictOrder {ℓ} {A : Type ℓ} (less : A → A → Bool) : Type ℓ where
  pub irrefl : (a : A) → less a a ≡ false
  pub trans : (a b c : A) → less a b ≡ true → less b c ≡ true → less a c ≡ true
  pub total : (a b : A) → less a b ≡ false → less b a ≡ false → a ≡ b

module _ {ℓ} {A : Type ℓ} (less : A → A → Bool) where
  unfoldable pub insert : A → List A → List A
  insert x [] = x ∷ []
  insert x (y ∷ ys) = let rest = insert x ys in if less y x then y ∷ rest else x ∷ y ∷ ys

  unfoldable pub insert_all : List A → List A → List A
  unfolding insert
  insert_all [] ys = ys
  insert_all (x ∷ xs) ys = insert x (insert_all xs ys)

  unfoldable pub sort : List A → List A
  unfolding insert_all
  sort xs = insert_all xs []

  pub insert_all-append :
      (xs ys zs : List A) → insert_all (xs ++ ys) zs ≡ insert_all xs (insert_all ys zs)
  unfolding insert_all
  insert_all-append [] ys zs = refl
  insert_all-append (x ∷ xs) ys zs = rw (insert_all-append xs ys zs)

module _ {ℓ} {A : Type ℓ} {less : A → A → Bool} (o : StrictOrder less) where
  asymm : (a b : A) → less a b ≡ true → less b a ≡ false
  asymm a b h = elim (Bool-cases (less b a)) [
    | inl e ↦ cc (o.irrefl a, o.trans a b a h e)
    | inr e ↦ e
  ]

  lt_of_le_of_lt : (a b c : A) → less b a ≡ false → less b c ≡ true → less a c ≡ true
  lt_of_le_of_lt a b c h k = elim (Bool-cases (less a b)) [
    | inl e ↦ o.trans a b c e k
    | inr e ↦ rw (o.total a b e h) k
  ]

  swap_front :
      (x y : A) (zs : List A)
      → (if less y x then y ∷ x ∷ zs else x ∷ y ∷ zs)
        ≡ (if less x y then x ∷ y ∷ zs else y ∷ x ∷ zs)
  swap_front x y zs = elim (Bool-cases (less y x)) [
    | inl e ↦ rw (e, asymm y x e)
    | inr e ↦ elim (Bool-cases (less x y)) [ inl k ↦ rw (e, k) | inr k ↦ rw (o.total x y k e) ]
  ]

  pub insert_low :
      (x y : A) (ys : List A) → less y x ≡ true → insert less x (y ∷ ys) ≡ y ∷ insert less x ys
  unfolding insert
  insert_low x y ys h = rw h

  pub insert_high : (x y : A) (ys : List A) → less y x ≡ false → insert less x (y ∷ ys) ≡ x ∷ y ∷ ys
  unfolding insert
  insert_high x y ys h = rw h

  pub insert_comm :
      (x y : A) (zs : List A) → insert less x (insert less y zs) ≡ insert less y (insert less x zs)
  insert_comm x y [] = unfold insert in swap_front x y []
  insert_comm x y (z ∷ zs) = elim (Bool-cases (less z x)) [
    | inl zx ↦ elim (Bool-cases (less z y)) [
      | inl zy ↦
          rw
            (
              insert_low x z zs zx,
              insert_low y z zs zy,
              insert_low y z (insert less x zs) zy,
              insert_low x z (insert less y zs) zx,
            )
            (ap (◌∷◌ z) (insert_comm x y zs))
      | inr zy ↦ rw (
        insert_low x z zs zx,
        insert_high y z zs zy,
        insert_high y z (insert less x zs) zy,
        insert_low x y (z ∷ zs) (lt_of_le_of_lt y z x zy zx),
        insert_low x z zs zx,
      )
    ]
    | inr zx ↦ elim (Bool-cases (less z y)) [
      | inl zy ↦ rw (
        insert_high x z zs zx,
        insert_low y z zs zy,
        insert_high x z (insert less y zs) zx,
        insert_low y x (z ∷ zs) (lt_of_le_of_lt x z y zx zy),
        insert_low y z zs zy,
      )
      | inr zy ↦
          rw (insert_high x z zs zx, insert_high y z zs zy)
            (unfold insert in (rw (zx, zy) (swap_front x y (z ∷ zs))))
    ]
  ]

  insert-insert_all :
      (x : A) (ys zs : List A)
      → insert less x (insert_all less ys zs) ≡ insert_all less ys (insert less x zs)
  unfolding insert_all
  insert-insert_all x [] zs = refl
  insert-insert_all x (y ∷ ys) zs =
      insert_comm x y (insert_all less ys zs) ∙ ap (insert less y) (insert-insert_all x ys zs)

  -- Two batches may be put in in either order.
  pub insert_all_comm :
      (xs ys zs : List A)
      → insert_all less xs (insert_all less ys zs) ≡ insert_all less ys (insert_all less xs zs)
  unfolding insert_all
  insert_all_comm [] ys zs = refl
  insert_all_comm (x ∷ xs) ys zs =
      ap (insert less x) (insert_all_comm xs ys zs) ∙ insert-insert_all x ys (insert_all less xs zs)

module _ {ℓ κ} {A : Type ℓ} (P : A → Type κ) (less : A → A → Bool) where
  All-insert : (x : A) (ys : List A) → P x → All P ys → All P (insert less x ys)
  unfolding insert
  All-insert x [] h k = (h, tt)
  All-insert x (y ∷ ys) h k = elim (Bool-cases (less y x)) [
    | inl e ↦ rw e (k.0, All-insert x ys h k.1)
    | inr e ↦ rw e (h, k)
  ]

  pub All-insert_all : (xs ys : List A) → All P xs → All P ys → All P (insert_all less xs ys)
  unfolding insert_all
  All-insert_all [] ys h k = k
  All-insert_all (x ∷ xs) ys h k = All-insert x _ h.0 (All-insert_all xs ys h.1 k)

  pub All-sort : (xs : List A) → All P xs → All P (sort less xs)
  unfolding sort
  All-sort xs h = All-insert_all xs [] h tt
