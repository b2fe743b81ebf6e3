-- ===== src/Base/Table/Laws.antt =====
-- Laws of the table statements, and predicates on all the rows of a table.
use things_team.Base.{
  ℕ, ◌≡◌, refl, inl, inr, Bool, true, false, Option, none, some, List, [], ◌∷◌, ◌++◌, arith,
  if◌then◌else◌, Bool-cases, Option-cases, leb,
}
use mathlib.Core.Option
use things_team.Base.Table.{find, select, any, update, delete, join, insert_by, order_by}

-- A predicate by recursion computes to tuples.
abbrev pub All {ℓ κ} : {A : Type ℓ} → (A → Type κ) → List A → Type κ
All P [] = Unit
All P (x ∷ xs) = P x × All P xs

-- What an `UPDATE` makes of one row.
abbrev pub patch {ℓ} : {A : Type ℓ} → (A → Bool) → (A → A) → A → A
patch q f x = if q x then f x else x

abbrev pub or_else {ℓ} : {A : Type ℓ} → Option A → Option A → Option A
or_else none o = o
or_else (some a) o = some a

module _ {ℓ} {A : Type ℓ} where
  pub find-holds : (p : A → Bool) (xs : List A) {x : A} → find p xs ≡ some x → p x ≡ true
  unfolding find
  find-holds p [] h = cc
  find-holds p (y ∷ ys) {x} h = ground (arith, find-holds p ys {x = x})

  pub find-update :
      (p q : A → Bool) (f : A → A) (xs : List A)
      → ((x : A) → p (f x) ≡ p x)
      → find p (update q f xs) ≡ Option.map (patch q f) (find p xs)
  unfolding find update
  find-update p q f [] h = refl
  find-update p q f (x ∷ xs) h = ground (arith, h x, find-update p q f xs h)

  pub find-append :
      (p : A → Bool) (xs ys : List A) → find p (xs ++ ys) ≡ or_else (find p xs) (find p ys)
  unfolding find
  find-append p [] ys = refl
  find-append p (x ∷ xs) ys = ground (arith, find-append p xs ys)

  pub find-append_found :
      (p : A → Bool) (xs ys : List A) {x : A} → find p xs ≡ some x → find p (xs ++ ys) ≡ some x
  find-append_found p xs ys h = rw (find-append p xs ys, h) refl

  pub find-append_last :
      (p : A → Bool) (xs : List A) (y : A)
      → find p xs ≡ none
      → p y ≡ true
      → find p (xs ++ y ∷ []) ≡ some y
  unfolding find
  find-append_last p xs y h e = rw (find-append p xs (y ∷ []), h, e) refl

  pub any-append :
      (p : A → Bool) (xs : List A) (y : A) → any p (xs ++ y ∷ []) ≡ (if any p xs then true else p y)
  unfolding any
  any-append p [] y = ground arith
  any-append p (x ∷ xs) y = ground (arith, any-append p xs y)

  pub find-any : (p : A → Bool) (xs : List A) → any p xs ≡ false → find p xs ≡ none
  unfolding find any
  find-any p [] h = refl
  find-any p (x ∷ xs) h = ground (arith, find-any p xs)

  pub any-find : (p : A → Bool) (xs : List A) {x : A} → find p xs ≡ some x → any p xs ≡ true
  unfolding find any
  any-find p [] h = cc
  any-find p (x ∷ xs) {x = y} h = ground (arith, any-find p xs {x = y})

  -- A row that one query finds is there for another that it passes.
  pub find-any_of :
      (p q : A → Bool) (xs : List A) {x : A} → find p xs ≡ some x → q x ≡ true → any q xs ≡ true
  unfolding find any
  find-any_of p q [] h e = cc
  find-any_of p q (y ∷ ys) {x} h e = ground (arith, find-any_of p q ys {x = x})

  pub any-find-some :
      (q : A → Bool) (xs : List A) → any q xs ≡ true → (x : A) × (find q xs ≡ some x)
  unfolding find any
  any-find-some q [] h = cc
  any-find-some q (x ∷ xs) h = elim (Bool-cases (q x)) [
    | inl e ↦ (x, rw e)
    | inr e ↦ rw e (any-find-some q xs (ground arith))
  ]

module _ {ℓ κ} {A : Type ℓ} (P : A → Type κ) where
  pub All-find : (p : A → Bool) (xs : List A) {x : A} → All P xs → find p xs ≡ some x → P x
  unfolding find
  All-find p [] a h = cc
  All-find p (y ∷ ys) {x} a h = elim (Bool-cases (p y)) [
    | inl e ↦ ground (arith)
    | inr e ↦ All-find p ys a.1 (rw (e, find) at h)
  ]

  pub All-append : (xs : List A) (y : A) → All P xs → P y → All P (xs ++ y ∷ [])
  All-append [] y a h = (h, tt)
  All-append (x ∷ xs) y a h = (a.0, All-append xs y a.1 h)

  -- The rows that are left do not pass the test.
  pub All-kept :
      (p : A → Bool) (xs : List A) → All P xs → All (λ x. P x × (p x ≡ false)) (delete p xs)
  unfolding delete
  All-kept p [] a = tt
  All-kept p (x ∷ xs) a = elim (Bool-cases (p x)) [
    | inl e ↦ rw e (All-kept p xs a.1)
    | inr e ↦ rw e ((a.0, e), All-kept p xs a.1)
  ]

  pub All-delete : (p : A → Bool) (xs : List A) → All P xs → All P (delete p xs)
  unfolding delete
  All-delete p [] a = tt
  All-delete p (x ∷ xs) a = elim (Bool-cases (p x)) [
    | inl e ↦ rw e (All-delete p xs a.1)
    | inr e ↦ rw e (a.0, All-delete p xs a.1)
  ]

module _ {ℓ κ ι} {A : Type ℓ} (P : A → Type κ) (Q : A → Type ι) where
  pub All-map : (xs : List A) → ((x : A) → P x → Q x) → All P xs → All Q xs
  All-map [] h a = tt
  All-map (x ∷ xs) h a = (h x a.0, All-map xs h a.1)

  pub All-update :
      (p : A → Bool) (f : A → A) (xs : List A)
      → ((x : A) → P x → Q (patch p f x))
      → All P xs
      → All Q (update p f xs)
  unfolding update
  All-update p f [] h a = tt
  All-update p f (x ∷ xs) h a = (h x a.0, All-update p f xs h a.1)

  pub All-both : (xs : List A) → All P xs → All Q xs → All (λ x. P x × Q x) xs
  All-both [] a b = tt
  All-both (x ∷ xs) a b = ((a.0, b.0), All-both xs a.1 b.1)

module _ {ℓ κ ι μ} {A : Type ℓ} {B : Type μ} (P : A → Type κ) (R : B → Type ι) where
  pub All-join :
      (f : A → Option B) (xs : List A)
      → ((x : A) → P x → (y : B) → f x ≡ some y → R y)
      → All P xs
      → All R (join f xs)
  unfolding join
  All-join f [] h a = tt
  All-join f (x ∷ xs) h a = elim (Option-cases (f x)) [
    | inl e ↦ rw (e, All) (All-join f xs h a.1)
    | inr (y, e) ↦ rw (e, All) (h x a.0 y e, All-join f xs h a.1)
  ]

module _ {ℓ κ} {A : Type ℓ} (P : A → Type κ) where
  pub All-select :
      (p : A → Bool) (xs : List A) → All P xs → All (λ x. P x × (p x ≡ true)) (select p xs)
  unfolding select
  All-select p [] a = tt
  All-select p (x ∷ xs) a = elim (Bool-cases (p x)) [
    | inl e ↦ rw e ((a.0, e), All-select p xs a.1)
    | inr e ↦ rw e (All-select p xs a.1)
  ]

  All-insert_by : (key : A → ℕ) (x : A) (xs : List A) → P x → All P xs → All P (insert_by key x xs)
  unfolding insert_by
  All-insert_by key x [] h a = (h, tt)
  All-insert_by key x (y ∷ ys) h a = elim (Bool-cases (leb (key x) (key y))) [
    | inl e ↦ rw e (h, a)
    | inr e ↦ rw e (a.0, All-insert_by key x ys h a.1)
  ]

  pub All-order_by : (key : A → ℕ) (xs : List A) → All P xs → All P (order_by key xs)
  unfolding order_by
  All-order_by key [] a = tt
  All-order_by key (x ∷ xs) a = All-insert_by key x (order_by key xs) a.0 (All-order_by key xs a.1)
