-- ===== src/Base/Table/Queries.antt =====
-- What a query returns: the rows that it asks for, and no more.
use things_team.Base.{
  ℕ, suc, ◌≤◌, ◌≡◌, refl, Bool, true, Option, some, List, [], ◌∷◌, arith, inl, inr, Bool-cases,
}
use things_team.Base.Table.{any, select, join, insert_by, order_by}
use things_team.Base.Table.Laws.{All}

abbrev pub length {ℓ} : {A : Type ℓ} → List A → ℕ
length [] = 0
length (x ∷ xs) = suc (length xs)

module _ {ℓ} {A : Type ℓ} where
  pub any-select :
      (p q : A → Bool) (xs : List A)
      → All (λ x. q x ≡ true → p x ≡ true) xs
      → any q xs ≡ true
      → any q (select p xs) ≡ true
  unfolding any select
  any-select p q [] h e = cc
  any-select p q (x ∷ xs) h e = ground (arith, h.0, any-select p q xs h.1)

  any-insert_by :
      (q : A → Bool) (key : A → ℕ) (x : A) (xs : List A)
      → any q (insert_by key x xs) ≡ any q (x ∷ xs)
  unfolding any insert_by
  any-insert_by q key x [] = refl
  any-insert_by q key x (y ∷ ys) = ground (arith, any-insert_by q key x ys)

  pub any-order_by : (q : A → Bool) (key : A → ℕ) (xs : List A) → any q (order_by key xs) ≡ any q xs
  unfolding any order_by
  any-order_by q key [] = refl
  any-order_by q key (x ∷ xs) =
      ground (arith, any-insert_by q key x (order_by key xs), any-order_by q key xs)

  pub length-select : (p : A → Bool) (xs : List A) → length (select p xs) ≤ length xs
  unfolding select
  length-select p [] = omega arith
  length-select p (x ∷ xs) = ground (arith, length-select p xs)

  length-insert_by :
      (key : A → ℕ) (x : A) (xs : List A) → length (insert_by key x xs) ≡ suc (length xs)
  unfolding insert_by
  length-insert_by key x [] = refl
  length-insert_by key x (y ∷ ys) = ground (arith, length-insert_by key x ys)

  pub length-order_by : (key : A → ℕ) (xs : List A) → length (order_by key xs) ≡ length xs
  unfolding order_by
  length-order_by key [] = refl
  length-order_by key (x ∷ xs) =
      omega (arith, length-insert_by key x (order_by key xs), length-order_by key xs)

module _ {ℓ κ} {A : Type ℓ} {B : Type κ} where
  pub any-join :
      (f : A → Option B) (q : A → Bool) (r : B → Bool) (xs : List A)
      → All (λ x. q x ≡ true → (y : B) × (f x ≡ some y) × (r y ≡ true)) xs
      → any q xs ≡ true
      → any r (join f xs) ≡ true
  unfolding any join
  any-join f q r [] h e = cc
  any-join f q r (x ∷ xs) h e = elim (Bool-cases (q x)) [
    | inl hit ↦ let (y, fx, ry) = h.0 hit in ground arith
    | inr miss ↦ ground (arith, any-join f q r xs h.1)
  ]

  pub length-join : (f : A → Option B) (xs : List A) → length (join f xs) ≤ length xs
  unfolding join
  length-join f [] = omega arith
  length-join f (x ∷ xs) = ground (arith, length-join f xs)
