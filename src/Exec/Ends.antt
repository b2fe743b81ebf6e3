-- ===== src/Exec/Ends.antt =====
-- Code that ends, and code that ends without an exception.
use things_team.Base.{◌≡◌, refl, String, Bool, true, false, Option, none, some}
use things_team.Exec.{
  Exec, Outcome, finished, raised, unfinished, pure, raise, gets, branch, on_option, attempt,
  rescue, continue, ◌>>=◌, ◌>>◌,
}

abbrev pub is_unfinished {ℓ} : {A : Type ℓ} → Outcome A → Bool
is_unfinished unfinished = true
is_unfinished _ = false

abbrev pub is_finished {ℓ} : {A : Type ℓ} → Outcome A → Bool
is_finished (finished a) = true
is_finished _ = false

-- No loop of `m` runs out of fuel.
pub record Ends {ℓ κ} {S : Type ℓ} {A : Type κ} (m : Exec S A) : Type ℓ where
  pub at : (s : S) → is_unfinished (m s).0 ≡ false

-- `m` gives a value.
pub record Finishes {ℓ κ} {S : Type ℓ} {A : Type κ} (m : Exec S A) : Type ℓ where
  pub at : (s : S) → is_finished (m s).0 ≡ true

module _ {ℓ κ} {S : Type ℓ} {A : Type κ} where
  pub Ends-pure : (a : A) → Ends {S = S} (pure a)
  unfolding pure
  Ends-pure a = record { at = λ s. refl }

  pub Finishes-pure : (a : A) → Finishes {S = S} (pure a)
  unfolding pure
  Finishes-pure a = record { at = λ s. refl }

  pub Ends-raise : (e : String) → Ends {S = S} {A = A} (raise e)
  unfolding raise
  Ends-raise e = record { at = λ s. refl }

  pub Ends-gets : (f : S → A) → Ends (gets f)
  unfolding gets
  Ends-gets f = record { at = λ s. refl }

  pub Ends-branch : (b : Bool) (m n : Exec S A) → Ends m → Ends n → Ends (branch b m n)
  unfolding branch
  Ends-branch true m n em en = em
  Ends-branch false m n em en = en

  Ends-rescue :
      (r : Outcome A) (h : String → Exec S A) (s : S)
      → is_unfinished r ≡ false
      → ((e : String) → Ends (h e))
      → is_unfinished (rescue r h s).0 ≡ false
  Ends-rescue (finished a) h s e eh = refl
  Ends-rescue (raised x) h s e eh = (eh x).at s
  Ends-rescue unfinished h s e eh = cc

  pub Ends-attempt :
      (m : Exec S A) (h : String → Exec S A)
      → Ends m
      → ((e : String) → Ends (h e))
      → Ends (attempt m h)
  unfolding attempt
  Ends-attempt m h em eh = record { at = λ s. let (r, s') = m s in Ends-rescue r h s' (em.at s) eh }

  Finishes-rescue :
      (r : Outcome A) (h : String → Exec S A) (s : S)
      → is_unfinished r ≡ false
      → ((e : String) → Finishes (h e))
      → is_finished (rescue r h s).0 ≡ true
  Finishes-rescue (finished a) h s e eh = refl
  Finishes-rescue (raised x) h s e eh = (eh x).at s
  Finishes-rescue unfinished h s e eh = cc

  -- An exception is caught.
  pub Finishes-attempt :
      (m : Exec S A) (h : String → Exec S A)
      → Ends m
      → ((e : String) → Finishes (h e))
      → Finishes (attempt m h)
  unfolding attempt
  Finishes-attempt m h em fh = record {
    at = λ s. let (r, s') = m s in Finishes-rescue r h s' (em.at s) fh;
  }

  pub Finishes-Ends : (m : Exec S A) → Finishes m → Ends m
  Finishes-Ends m f = record { at = λ s. at_end (m s).0 (f.at s) }
    where
      at_end : (r : Outcome A) → is_finished r ≡ true → is_unfinished r ≡ false
      at_end (finished a) e = refl
      at_end (raised x) e = refl
      at_end unfinished e = cc

module _ {ℓ κ μ} {S : Type ℓ} {A : Type κ} {B : Type μ} where
  pub Ends-on_option :
      (o : Option A) (m : Exec S B) (f : A → Exec S B)
      → Ends m
      → ((a : A) → Ends (f a))
      → Ends (on_option o m f)
  unfolding on_option
  Ends-on_option none m f em ef = em
  Ends-on_option (some a) m f em ef = ef a

  pub Finishes-on_option :
      (o : Option A) (m : Exec S B) (f : A → Exec S B)
      → Finishes m
      → ((a : A) → Finishes (f a))
      → Finishes (on_option o m f)
  unfolding on_option
  Finishes-on_option none m f em ef = em
  Finishes-on_option (some a) m f em ef = ef a

  pub Ends-continue :
      (r : Outcome A) (f : A → Exec S B) (s : S)
      → is_unfinished r ≡ false
      → ((a : A) → Ends (f a))
      → is_unfinished (continue r f s).0 ≡ false
  Ends-continue (finished a) f s e ef = (ef a).at s
  Ends-continue (raised x) f s e ef = refl
  Ends-continue unfinished f s e ef = cc

  pub Ends-bind :
      (m : Exec S A) (f : A → Exec S B) → Ends m → ((a : A) → Ends (f a)) → Ends (m >>= f)
  unfolding ◌>>=◌
  Ends-bind m f em ef = record { at = λ s. let (r, s') = m s in Ends-continue r f s' (em.at s) ef }

  pub Ends-then : (m : Exec S A) (n : Exec S B) → Ends m → Ends n → Ends (m >> n)
  unfolding ◌>>◌
  Ends-then m n em en = record {
    at = λ s. let (r, s') = m s in Ends-continue r (λ _. n) s' (em.at s) (λ _. en);
  }

  Finishes-continue :
      (r : Outcome A) (f : A → Exec S B) (s : S)
      → is_finished r ≡ true
      → ((a : A) → Finishes (f a))
      → is_finished (continue r f s).0 ≡ true
  Finishes-continue (finished a) f s e ff = (ff a).at s
  Finishes-continue (raised x) f s e ff = cc
  Finishes-continue unfinished f s e ff = cc

  pub Finishes-bind :
      (m : Exec S A) (f : A → Exec S B)
      → Finishes m
      → ((a : A) → Finishes (f a))
      → Finishes (m >>= f)
  unfolding ◌>>=◌
  Finishes-bind m f em ef = record {
    at = λ s. let (r, s') = m s in Finishes-continue r f s' (em.at s) ef;
  }

  pub Finishes-then : (m : Exec S A) (n : Exec S B) → Finishes m → Finishes n → Finishes (m >> n)
  unfolding ◌>>◌
  Finishes-then m n em en = record {
    at = λ s. let (r, s') = m s in Finishes-continue r (λ _. n) s' (em.at s) (λ _. en);
  }

pub ruleset ends_rules = (
  Ends-pure, Ends-raise, Ends-gets, Ends-branch, Ends-attempt, Ends-on_option, Ends-bind, Ends-then,
)

pub ruleset finishes_rules =
    (Finishes-pure, Finishes-attempt, Finishes-on_option, Finishes-bind, Finishes-then)
