-- ===== src/Exec/Gives.antt =====
-- What holds of the value that code gives and of the state that it leaves, if it gives one.
use things_team.Base.{ℕ, zero, suc, String, Bool, true, false, Option, none, some, leb}
use things_team.Exec.{
  Exec, Outcome, finished, raised, unfinished, pure, raise, stop, branch, on_option, attempt,
  rescue, continue, ◌>>=◌, ◌>>◌,
}
use things_team.Exec.Until.{round_until, loop_until}

abbrev pub Holds {ℓ κ ν} : {S : Type ℓ} {A : Type κ} → (A → S → Type ν) → Outcome A → S → Type ν
Holds Q (finished a) s = Q a s
Holds Q (raised e) s = Unit
Holds Q unfinished s = Unit

pub record Gives {ℓ κ ν} {S : Type ℓ} {A : Type κ} (Q : A → S → Type ν) (m : Exec S A)
    : Type (ℓ ⊔ ν) where
  pub at : (s : S) → Holds Q (m s).0 (m s).1

module _ {ℓ κ μ} {S : Type ℓ} {A : Type κ} (Q : A → S → Type μ) where
  pub Gives-pure : (a : A) → ((s : S) → Q a s) → Gives Q (pure a)
  unfolding pure
  Gives-pure a h = record { at = h }

  pub Gives-raise : (e : String) → Gives Q (raise e)
  unfolding raise
  Gives-raise e = record { at = λ s. tt }

  pub Gives-branch : (b : Bool) (m n : Exec S A) → Gives Q m → Gives Q n → Gives Q (branch b m n)
  unfolding branch
  Gives-branch true m n gm gn = gm
  Gives-branch false m n gm gn = gn

  Holds-rescue :
      (r : Outcome A) (h : String → Exec S A) (s : S)
      → Holds Q r s
      → ((e : String) → Gives Q (h e))
      → Holds Q (rescue r h s).0 (rescue r h s).1
  Holds-rescue (finished a) h s q gh = q
  Holds-rescue (raised e) h s q gh = (gh e).at s
  Holds-rescue unfinished h s q gh = tt

  pub Gives-attempt :
      (m : Exec S A) (h : String → Exec S A)
      → Gives Q m
      → ((e : String) → Gives Q (h e))
      → Gives Q (attempt m h)
  unfolding attempt
  Gives-attempt m h gm gh = record { at = λ s. Holds-rescue (m s).0 h (m s).1 (gm.at s) gh }

module _ {ℓ κ ν μ ι} {S : Type ℓ} {A : Type κ} {B : Type ν} (P : A → S → Type ι)
    (Q : B → S → Type μ) where
  Holds-continue :
      (r : Outcome A) (f : A → Exec S B) (s : S)
      → Holds P r s
      → ((a : A) (s : S) → P a s → Holds Q (f a s).0 (f a s).1)
      → Holds Q (continue r f s).0 (continue r f s).1
  Holds-continue (finished a) f s p h = h a s p
  Holds-continue (raised e) f s p h = tt
  Holds-continue unfinished f s p h = tt

  -- What the first part gives is known to the second.
  pub Gives-after :
      (m : Exec S A) (f : A → Exec S B)
      → Gives P m
      → ((a : A) (s : S) → P a s → Holds Q (f a s).0 (f a s).1)
      → Gives Q (m >>= f)
  unfolding ◌>>=◌
  Gives-after m f gm h = record { at = λ s. Holds-continue (m s).0 f (m s).1 (gm.at s) h }

module _ {ℓ κ ν μ} {S : Type ℓ} {A : Type κ} {B : Type ν} (Q : B → S → Type μ) where
  any_outcome : (r : Outcome A) (s : S) → Holds (λ a s. Unit {0}) r s
  any_outcome (finished a) s = tt
  any_outcome (raised e) s = tt
  any_outcome unfinished s = tt

  pub Gives-bind : (m : Exec S A) (f : A → Exec S B) → ((a : A) → Gives Q (f a)) → Gives Q (m >>= f)
  Gives-bind m f h =
      Gives-after (λ a s. Unit {0}) Q m f (record { at = λ s. any_outcome (m s).0 (m s).1 })
        (λ a s u. (h a).at s)

  pub Gives-then : (m : Exec S A) (n : Exec S B) → Gives Q n → Gives Q (m >> n)
  unfolding ◌>>◌
  Gives-then m n h = record {
    at = λ s.
        Holds-continue (λ a s. Unit {0}) Q (m s).0 (λ _. n) (m s).1 (any_outcome (m s).0 (m s).1)
          (λ a s u. h.at s);
  }

-- A test that ends a loop, and the value that it gives.
abbrev pub Found {ℓ κ ν} : {S : Type ℓ} {B : Type κ} → (B → S → Type ν) → Option B → S → Type ν
Found Q none s = Unit
Found Q (some b) s = Q b s

-- What a loop gives it gives by its test or after the deadline.
module _ {ℓ κ ν μ} {S : Type ℓ} {A : Type κ} {B : Type ν} (Q : B → S → Type μ) (now : Exec S ℕ)
    (deadline : ℕ) (late : A → Exec S B) (test : A → Exec S (Option B)) (rest : ℕ → A → Exec S A)
    (late_gives : (a : A) → Gives Q (late a))
    (test-Gives : (a : A) → Gives (Found Q) (test a)) where
  option-Gives :
      (next : A → Exec S B) (t : ℕ) (a : A) (o : Option B) (s : S)
      → ((a : A) → Gives Q (next a))
      → Found Q o s
      → Holds Q
          (on_option o (rest t a >>= next) pure s).0
          (on_option o (rest t a >>= next) pure s).1
  unfolding on_option pure
  option-Gives next t a none s h f = (Gives-bind Q (rest t a) next h).at s
  option-Gives next t a (some b) s h f = f

  round-Gives :
      (next : A → Exec S B) (a : A)
      → ((a : A) → Gives Q (next a))
      → Gives Q (round_until now deadline late test rest next a)
  unfolding round_until
  round-Gives next a h = Gives-bind Q now _ (λ t.
      Gives-branch Q (leb deadline t) _ _ (late_gives a) (
        Gives-after (Found Q) Q (test a) _ (test-Gives a) (λ o s f. option-Gives next t a o s h f)))

  pub loop_until-Gives :
      (fuel : ℕ) (a : A) → Gives Q (loop_until now deadline late test rest fuel a)
  unfolding loop_until stop
  loop_until-Gives zero a = record { at = λ s. tt }
  loop_until-Gives (suc fuel) a = round-Gives _ a (loop_until-Gives fuel)
