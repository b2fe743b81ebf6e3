-- ===== src/Base/Table/Members.antt =====
-- Which rows a table holds.
use mathlib.Core.List.{Mem, mem-cons_self, mem-cons_of_mem}
use things_team.Base.{◌≡◌, refl, Bool, true, false, List, [], ◌∷◌, if◌then◌else◌}
use things_team.Base.Table.{select}
use things_team.Base.Table.Laws.{All, All-map}

pub All-mem {ℓ} : {A : Type ℓ} (xs : List A) → All (λ x. Mem x xs) xs
All-mem [] = tt
All-mem (x ∷ xs) = (mem-cons_self, All-map _ _ xs (λ y h. mem-cons_of_mem x h) (All-mem xs))

kept_rows {ℓ} :
    {A : Type ℓ} (p : A → Bool) (x : A) (xs ys : List A) (b : Bool)
    → p x ≡ b
    → All (λ y. p y ≡ true → Mem y ys) xs
    → All (λ y. p y ≡ true → Mem y (if b then x ∷ ys else ys)) (x ∷ xs)
kept_rows p x xs ys true e a =
    (λ h. mem-cons_self, All-map _ _ xs (λ y m h. mem-cons_of_mem x (m h)) a)
kept_rows p x xs ys false e a = (λ h. cc (e, h), a)

-- A query gives every row that passes its test.
pub select-All {ℓ} :
    {A : Type ℓ} (p : A → Bool) (xs : List A) → All (λ x. p x ≡ true → Mem x (select p xs)) xs
unfolding select
select-All p [] = tt
select-All p (x ∷ xs) = kept_rows p x xs (select p xs) (p x) refl (select-All p xs)
