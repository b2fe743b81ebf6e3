-- ===== src/Base/Table/Exists.antt =====
-- Whether some row of a table passes a test, under each table statement.
use things_team.Base.{◌≡◌, refl, Bool, true, false, List, [], ◌∷◌, arith}
use things_team.Base.Table.{any, update, delete}
use things_team.Base.Table.Laws.{All, All-map, patch}

module _ {ℓ} {A : Type ℓ} where
  -- An update of rows that the test does not tell apart from their new versions.
  pub any-update :
      (q p : A → Bool) (f : A → A) (xs : List A)
      → All (λ x. p x ≡ true → q (f x) ≡ q x) xs
      → any q (update p f xs) ≡ any q xs
  unfolding any update
  any-update q p f [] h = refl
  any-update q p f (x ∷ xs) h = ground (arith, h.0, any-update q p f xs h.1)

  pub any-delete :
      (q p : A → Bool) (xs : List A)
      → All (λ x. p x ≡ true → q x ≡ false) xs
      → any q (delete p xs) ≡ any q xs
  unfolding any delete
  any-delete q p [] h = refl
  any-delete q p (x ∷ xs) h = ground (arith, h.0, any-delete q p xs h.1)

  -- A row that passes stays one that passes the next test.
  pub any-update_mono :
      (q r p : A → Bool) (f : A → A) (xs : List A)
      → All (λ x. q x ≡ true → r (patch p f x) ≡ true) xs
      → any q xs ≡ true
      → any r (update p f xs) ≡ true
  unfolding any update
  any-update_mono q r p f [] h e = cc
  any-update_mono q r p f (x ∷ xs) h e = ground (arith, h.0, any-update_mono q r p f xs h.1)

  pub any-All : (q : A → Bool) (xs : List A) → any q xs ≡ false → All (λ x. q x ≡ false) xs
  unfolding any
  any-All q [] h = tt
  any-All q (x ∷ xs) h = (ground arith, any-All q xs (ground arith))

  pub All-any : (q : A → Bool) (xs : List A) → All (λ x. q x ≡ false) xs → any q xs ≡ false
  unfolding any
  All-any q [] h = refl
  All-any q (x ∷ xs) h = ground (arith, All-any q xs h.1)

  pub any-imp :
      (q r : A → Bool) (xs : List A)
      → All (λ x. q x ≡ true → r x ≡ true) xs
      → any q xs ≡ true
      → any r xs ≡ true
  unfolding any
  any-imp q r [] h e = cc
  any-imp q r (x ∷ xs) h e = ground (arith, h.0, any-imp q r xs h.1)

  pub All-always {κ} : (P : A → Type κ) (xs : List A) → ((x : A) → P x) → All P xs
  All-always P [] h = tt
  All-always P (x ∷ xs) h = (h x, All-always P xs h)

  pub any-delete-false :
      (q p : A → Bool) (xs : List A) → any q xs ≡ false → any q (delete p xs) ≡ false
  unfolding any delete
  any-delete-false q p [] h = refl
  any-delete-false q p (x ∷ xs) h = ground (arith, any-delete-false q p xs)

  pub All-self :
      (q : A → A → Bool) (xs : List A)
      → ((x : A) → q x x ≡ true)
      → All (λ x. any (q x) xs ≡ true) xs
  unfolding any
  All-self q [] h = tt
  All-self q (x ∷ xs) h =
      (ground (arith, h x), All-map _ _ xs (λ y p. ground arith) (All-self q xs h))

  pub any-imp_false :
      (q r : A → Bool) (xs : List A)
      → ((x : A) → r x ≡ true → q x ≡ true)
      → any q xs ≡ false
      → any r xs ≡ false
  unfolding any
  any-imp_false q r [] h e = refl
  any-imp_false q r (x ∷ xs) h e = ground (arith, h x, any-imp_false q r xs h)
