-- ===== src/Exec/Keeps.antt =====
-- Invariants of code with a state, one rule for each way to build it.
use things_team.Base.{◌≡◌, refl, sym, subst, String, Bool, true, false, Option, none, some}
use things_team.Exec.{
  Exec, Outcome, finished, raised, unfinished, pure, raise, stop, gets, branch, on_option, attempt,
  rescue, continue, ◌>>=◌, ◌>>◌,
}

-- `m` keeps `P`, however it ends.
pub record Keeps {ℓ κ ν} {S : Type ℓ} {A : Type κ} (P : S → Type ν) (m : Exec S A)
    : Type (ℓ ⊔ ν) where
  pub at : (s : S) → P s → P (m s).1

module _ {ℓ κ ν} {S : Type ℓ} {A : Type κ} {P : S → Type ν} where
  -- Code that leaves the state alone.
  unmoved : (m : Exec S A) → ((s : S) → (m s).1 ≡ s) → Keeps P m
  unmoved m e = record { at = λ s h. subst P (sym (e s)) h }

  pub Keeps-stop : Keeps P (stop {A = A})
  unfolding stop
  Keeps-stop = unmoved stop (λ s. refl)

  pub Keeps-gets : (f : S → A) → Keeps P (gets f)
  unfolding gets
  Keeps-gets f = unmoved (gets f) (λ s. refl)

  pub Keeps-raise : (e : String) → Keeps P (raise {A = A} e)
  unfolding raise
  Keeps-raise e = unmoved (raise e) (λ s. refl)

  pub Keeps-pure : (a : A) → Keeps P (pure a)
  unfolding pure
  Keeps-pure a = unmoved (pure a) (λ s. refl)

  pub Keeps-branch : (b : Bool) (m n : Exec S A) → Keeps P m → Keeps P n → Keeps P (branch b m n)
  unfolding branch
  Keeps-branch true m n km kn = km
  Keeps-branch false m n km kn = kn

  Keeps-rescue :
      (r : Outcome A) (h : String → Exec S A)
      → ((e : String) → Keeps P (h e))
      → Keeps P (rescue r h)
  unfolding pure stop
  Keeps-rescue (finished a) h kh = Keeps-pure a
  Keeps-rescue (raised e) h kh = kh e
  Keeps-rescue unfinished h kh = Keeps-stop

  pub Keeps-attempt :
      (m : Exec S A) (h : String → Exec S A)
      → Keeps P m
      → ((e : String) → Keeps P (h e))
      → Keeps P (attempt m h)
  unfolding attempt
  Keeps-attempt m h km kh = record {
    at = λ s p. let (r, s') = m s in (Keeps-rescue r h kh).at s' (km.at s p);
  }

module _ {ℓ κ ν μ} {S : Type ℓ} {A : Type κ} {B : Type μ} {P : S → Type ν} where
  -- What is kept after the outcome `r`.
  continue-Keeps :
      (r : Outcome A) (rest : A → Exec S B) (s : S)
      → P s
      → ((a : A) → Keeps P (rest a))
      → P (continue r rest s).1
  continue-Keeps (finished a) rest s h k = (k a).at s h
  continue-Keeps (raised e) rest s h k = h
  continue-Keeps unfinished rest s h k = h

  pub Keeps-on_option :
      (o : Option A) (m : Exec S B) (f : A → Exec S B)
      → Keeps P m
      → ((a : A) → Keeps P (f a))
      → Keeps P (on_option o m f)
  unfolding on_option
  Keeps-on_option none m f km kf = km
  Keeps-on_option (some a) m f km kf = kf a

  -- What follows keeps what the first part has brought about.
  pub then-Keeps : (m : Exec S A) (n : Exec S B) (s : S) → P (m s).1 → Keeps P n → P ((m >> n) s).1
  unfolding ◌>>◌
  then-Keeps m n s h kn = continue-Keeps (m s).0 (λ _. n) (m s).1 h (λ _. kn)

  pub Keeps-then : (m : Exec S A) (n : Exec S B) → Keeps P m → Keeps P n → Keeps P (m >> n)
  Keeps-then m n km kn = record { at = λ s h. then-Keeps m n s (km.at s h) kn }

  pub bind-Keeps :
      (m : Exec S A) (f : A → Exec S B) (s : S)
      → P (m s).1
      → ((a : A) → Keeps P (f a))
      → P ((m >>= f) s).1
  unfolding ◌>>=◌
  bind-Keeps m f s h k = continue-Keeps (m s).0 f (m s).1 h k

  pub Keeps-bind :
      (first : Exec S A) (rest : A → Exec S B)
      → Keeps P first
      → ((a : A) → Keeps P (rest a))
      → Keeps P (first >>= rest)
  unfolding ◌>>=◌
  Keeps-bind first rest k ks = record {
    at = λ s h. continue-Keeps (first s).0 rest (first s).1 (k.at s h) ks;
  }

pub ruleset keeps_rules = (
  Keeps-pure, Keeps-raise, Keeps-stop, Keeps-gets, Keeps-branch, Keeps-on_option, Keeps-attempt,
  Keeps-bind, Keeps-then,
)
