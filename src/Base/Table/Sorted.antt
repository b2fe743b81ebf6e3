-- ===== src/Base/Table/Sorted.antt =====
-- The order in which `ORDER BY` leaves the rows.
use things_team.Base.{
  ℕ, ◌≤◌, ◌≡◌, Bool, true, some, List, [], ◌∷◌, arith, inl, inr, Bool-cases, leb,
}
use things_team.Base.Table.{find, insert_by, order_by}
use things_team.Base.Table.Laws.{All, All-map}

module _ {ℓ} {A : Type ℓ} (key : A → ℕ) where
  abbrev pub Sorted : List A → Type 0
  Sorted [] = Unit
  Sorted (x ∷ xs) = All (λ y. key x ≤ key y) xs × Sorted xs

  All-insert_by-le :
      (n : ℕ) (x : A) (xs : List A)
      → n ≤ key x
      → All (λ y. n ≤ key y) xs
      → All (λ y. n ≤ key y) (insert_by key x xs)
  unfolding insert_by
  All-insert_by-le n x [] h a = (h, tt)
  All-insert_by-le n x (y ∷ ys) h a = elim (Bool-cases (leb (key x) (key y))) [
    | inl e ↦ rw e (h, a)
    | inr e ↦ rw e (a.0, All-insert_by-le n x ys h a.1)
  ]

  insert_by-Sorted : (x : A) (xs : List A) → Sorted xs → Sorted (insert_by key x xs)
  unfolding insert_by
  insert_by-Sorted x [] s = (tt, tt)
  insert_by-Sorted x (y ∷ ys) s = elim (Bool-cases (leb (key x) (key y))) [
    | inl e ↦
        let below : key x ≤ key y = ground arith in
        rw e ((below, All-map _ _ ys (λ z h. omega arith) s.0), s)
    | inr e ↦
        let above : key y ≤ key x = ground arith in
        rw e (All-insert_by-le (key y) x ys above s.0, insert_by-Sorted x ys s.1)
  ]

  pub order_by-Sorted : (xs : List A) → Sorted (order_by key xs)
  unfolding order_by
  order_by-Sorted [] = tt
  order_by-Sorted (x ∷ xs) = insert_by-Sorted x (order_by key xs) (order_by-Sorted xs)

  -- What is found first in a sorted list is least among the rows that pass.
  pub find-least :
      (p : A → Bool) (xs : List A) {x : A}
      → Sorted xs
      → find p xs ≡ some x
      → All (λ y. p y ≡ true → key x ≤ key y) xs
  unfolding find
  find-least p [] s h = tt
  find-least p (y ∷ ys) {x} s h = elim (Bool-cases (p y)) [
    | inl e ↦
        let same : key y ≡ key x = ground arith in
        (λ _. omega arith, All-map _ _ ys (λ z k _. omega arith) s.0)
    | inr e ↦ (λ q. ground arith, find-least p ys s.1 (ground arith))
  ]
