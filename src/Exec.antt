-- ===== src/Exec.antt =====
-- Python code that reads and writes a state and may raise. What was written before a raise stays
-- written, so the state comes back beside the outcome. A loop whose fuel is spent is unfinished, which no
-- `except` catches.
pub mod Keeps
pub mod Ends
pub mod Until
pub mod Gives
use things_team.Base.{String, Bool, true, false, Option, none, some}

-- What a call of code outside the model gives: a value, or an exception with its text.
pub data Reply {ℓ} (A : Type ℓ) : Type ℓ where
  returned : A → Reply A
  failed : String → Reply A

pub data Outcome {ℓ} (A : Type ℓ) : Type ℓ where
  finished : A → Outcome A
  raised : String → Outcome A
  unfinished : Outcome A

abbrev pub Exec {ℓ κ} : Type ℓ → Type κ → Type (ℓ ⊔ κ)
Exec S A = S → Outcome A × S

abbrev pub outcome {ℓ} : {A : Type ℓ} → Reply A → Outcome A
outcome (returned a) = finished a
outcome (failed e) = raised e

unfoldable pub modify {ℓ} : {S : Type ℓ} → (S → S) → Exec S (Unit {0})
modify f s = (finished tt, f s)

module _ {ℓ κ} {S : Type ℓ} {A : Type κ} where
  unfoldable pub pure : A → Exec S A
  pure a s = (finished a, s)

  unfoldable pub raise : String → Exec S A
  raise e s = (raised e, s)

  unfoldable pub stop : Exec S A
  stop s = (unfinished, s)

  unfoldable pub gets : (S → A) → Exec S A
  gets f s = (finished (f s), s)

  -- `if b: m` and `else: n`
  unfoldable pub branch : Bool → Exec S A → Exec S A → Exec S A
  branch true m n = m
  branch false m n = n

  abbrev pub rescue : Outcome A → (String → Exec S A) → Exec S A
  rescue (finished a) h s = (finished a, s)
  rescue (raised e) h s = h e s
  rescue unfinished h s = (unfinished, s)

  -- `try: m` and `except Exception as exc: h`
  unfoldable pub attempt : Exec S A → (String → Exec S A) → Exec S A
  attempt m h s = let (r, s') = m s in rescue r h s'

module _ {ℓ κ ν} {S : Type ℓ} {A : Type κ} {B : Type ν} where
  abbrev pub continue : Outcome A → (A → Exec S B) → Exec S B
  continue (finished a) f s = f a s
  continue (raised e) f s = (raised e, s)
  continue unfinished f s = (unfinished, s)

  -- A test for `None`, with what follows it in each case.
  unfoldable pub on_option : Option A → Exec S B → (A → Exec S B) → Exec S B
  on_option none m f = m
  on_option (some a) m f = f a

  infixl 10 ◌>>=◌ ◌>>◌
  unfoldable pub ◌>>=◌ : Exec S A → (A → Exec S B) → Exec S B
  ◌>>=◌ m f s = let (r, s') = m s in continue r f s'

  unfoldable pub ◌>>◌ : Exec S A → Exec S B → Exec S B
  ◌>>◌ m n s = let (r, s') = m s in continue r (λ _. n) s'
