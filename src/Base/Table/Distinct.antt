-- ===== src/Base/Table/Distinct.antt =====
-- A UNIQUE constraint: no two rows of a table clash.
use things_team.Base.{
  ◌≡◌, refl, ap, ◌∙◌, Bool, true, false, some, List, [], ◌∷◌, ◌++◌, arith, inl, inr, if◌then◌else◌,
  Bool-cases,
}
use things_team.Base.Table.{find, any, update, delete}
use things_team.Base.Table.Laws.{All, All-map, All-both, All-find, any-append, patch}
use things_team.Base.Table.Exists.{any-All, any-delete-false}

module _ {ℓ} {A : Type ℓ} (clash : A → A → Bool) where
  abbrev pub Distinct : List A → Type 0
  Distinct [] = Unit
  Distinct (x ∷ xs) = (any (clash x) xs ≡ false) × Distinct xs

  patch_clash :
      (p : A → Bool) (f : A → A) (x y : A)
      → clash (f x) y ≡ clash x y
      → clash (if p x then f x else x) y ≡ clash x y
  patch_clash p f x y h = ground arith

  -- An update that changes no constrained column.
  any-update_clash :
      (x : A) (p : A → Bool) (f : A → A) (ys : List A)
      → ((x y : A) → clash (f x) y ≡ clash x y)
      → ((x y : A) → clash x (f y) ≡ clash x y)
      → any (clash (patch p f x)) (update p f ys) ≡ any (clash x) ys
  unfolding any update
  any-update_clash x p f [] h k = refl
  any-update_clash x p f (y ∷ ys) h k =
      ground (arith, h x y, h x (f y), k x y, any-update_clash x p f ys h k)

  pub Distinct-update :
      (p : A → Bool) (f : A → A) (xs : List A)
      → ((x y : A) → clash (f x) y ≡ clash x y)
      → ((x y : A) → clash x (f y) ≡ clash x y)
      → Distinct xs
      → Distinct (update p f xs)
  unfolding update
  Distinct-update p f [] h k d = tt
  Distinct-update p f (x ∷ xs) h k d =
      (any-update_clash x p f xs h k ∙ d.0, Distinct-update p f xs h k d.1)

  pub Distinct-delete : (p : A → Bool) (xs : List A) → Distinct xs → Distinct (delete p xs)
  unfolding delete
  Distinct-delete p [] d = tt
  Distinct-delete p (x ∷ xs) d = elim (Bool-cases (p x)) [
    | inl e ↦ rw e (Distinct-delete p xs d.1)
    | inr e ↦ rw e (any-delete-false (clash x) p xs d.0, Distinct-delete p xs d.1)
  ]

  module _ (swap : (x y : A) → clash x y ≡ clash y x) where
    pub Distinct-append :
        (x : A) (xs : List A) → any (clash x) xs ≡ false → Distinct xs → Distinct (xs ++ x ∷ [])
    unfolding any
    Distinct-append x [] h d = (refl, tt)
    Distinct-append x (y ∷ ys) h d = (
      ground (arith, swap x y, any-append (clash y) ys x),
      Distinct-append x ys (ground arith) d.1,
    )

    -- The row that a query finds is the only one that clashes with it.
    pub Distinct-find :
        (p : A → Bool) (xs : List A) {x : A}
        → Distinct xs
        → find p xs ≡ some x
        → All (λ y. clash x y ≡ true → y ≡ x) xs
    unfolding find
    Distinct-find p [] d h = tt
    Distinct-find p (y ∷ ys) {x} d h = elim (Bool-cases (p y)) [
      | inl e ↦
          let same : y ≡ x = ground arith in
          (
            λ _. same,
            All-map _ _ ys (λ z n m. cc (ap (λ v. clash v z) same)) (any-All (clash y) ys d.0),
          )
      | inr e ↦
          let later : find p ys ≡ some x = ground arith in
          let other : clash y x ≡ false = All-find _ p ys (any-All (clash y) ys d.0) later in
          (λ m. cc (swap x y), Distinct-find p ys d.1 later)
    ]

    -- Two rows that clash are one row.
    pub Distinct-pairs :
        (xs : List A) → Distinct xs → All (λ x. All (λ y. clash x y ≡ true → y ≡ x) xs) xs
    Distinct-pairs [] d = tt
    Distinct-pairs (x ∷ xs) d = (
      (λ m. refl, All-map _ _ xs (λ y n m. cc) (any-All (clash x) xs d.0)),
      All-map _ _ xs (λ z r. (λ m. cc (swap z x), r.1))
          (All-both _ _ xs (any-All (clash x) xs d.0) (Distinct-pairs xs d.1)),
    )
