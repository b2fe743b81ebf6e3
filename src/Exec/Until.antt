-- ===== src/Exec/Until.antt =====
-- `while time.time() < deadline`, and when it ends.
use things_team.Base.{
  ◌≡◌, refl, ℕ, zero, suc, ◌+◌, ◌≤◌, ◌<◌, false, Option, none, some, arith, inl, inr, Bool-cases,
  leb,
}
use things_team.Exec.{
  Exec, Outcome, finished, raised, unfinished, pure, stop, branch, on_option, continue, ◌>>=◌,
}
use things_team.Exec.Ends.{Ends, is_unfinished}
use things_team.Exec.Keeps.{
  Keeps, Keeps-bind, Keeps-branch, Keeps-on_option, Keeps-pure, Keeps-stop,
}

-- The clock is read before each round; `late` follows the deadline. A round ends the loop by `some`, and
-- else goes on by `rest`, which is told the time that was read.
module _ {ℓ κ ν} {S : Type ℓ} {A : Type κ} {B : Type ν} (now : Exec S ℕ) (deadline : ℕ)
    (late : A → Exec S B) (test : A → Exec S (Option B)) (rest : ℕ → A → Exec S A) where
  unfoldable pub round_until : (A → Exec S B) → A → Exec S B
  round_until next a = do
    t ← now
    branch (leb deadline t) (late a) (do o ← test a; on_option o (rest t a >>= next) pure)

  unfoldable pub loop_until : ℕ → A → Exec S B
  loop_until zero a = stop
  loop_until (suc fuel) a = round_until (loop_until fuel) a

  module _ (at : S → ℕ) where
    -- Time passes in the loop.
    pub record Advances : Type (ℓ ⊔ κ ⊔ ν) where
      pub now_ends : Ends now
      pub now_reads : (s : S) (t : ℕ) → (now s).0 ≡ finished t → (at s ≤ t) × (t ≤ at (now s).1)
      pub late_ends : (a : A) → Ends (late a)
      pub test_ends : (a : A) → Ends (test a)
      pub test_passes : (a : A) (k : ℕ) → Keeps (λ s. k ≤ at s) (test a)
      pub rest_ends : (t : ℕ) (a : A) → Ends (rest t a)
      pub rest_passes : (t : ℕ) (a : A) (s : S) → t < deadline → at s < at (rest t a s).1

-- What each part of the loop keeps, the loop keeps.
module _ {ℓ κ ν μ} {S : Type ℓ} {A : Type κ} {B : Type ν} (P : S → Type μ) {now : Exec S ℕ}
    (deadline : ℕ) {late : A → Exec S B} {test : A → Exec S (Option B)} {rest : ℕ → A → Exec S A}
    (now-Keeps : Keeps P now) (late-Keeps : (a : A) → Keeps P (late a))
    (test-Keeps : (a : A) → Keeps P (test a))
    (rest-Keeps : (t : ℕ) (a : A) → Keeps P (rest t a)) where
  round-Keeps :
      (next : A → Exec S B) (a : A)
      → ((a : A) → Keeps P (next a))
      → Keeps P (round_until now deadline late test rest next a)
  unfolding round_until
  round-Keeps next a next-Keeps = Keeps-bind now _ now-Keeps (λ t.
      Keeps-branch (leb deadline t) _ _ (late-Keeps a) (
        Keeps-bind (test a) _ (test-Keeps a) (λ o.
          Keeps-on_option o _ _ (Keeps-bind (rest t a) next (rest-Keeps t a) next-Keeps)
            Keeps-pure)))

  pub Keeps-loop_until :
      (fuel : ℕ) (a : A) → Keeps P (loop_until now deadline late test rest fuel a)
  unfolding loop_until
  Keeps-loop_until zero a = Keeps-stop
  Keeps-loop_until (suc fuel) a = round-Keeps _ a (Keeps-loop_until fuel)

-- What follows `m` ends in the state after it, with the value that it gives.
pub bind_ends {ℓ κ ν} :
    {S : Type ℓ} {A : Type κ} {B : Type ν} (m : Exec S A) (f : A → Exec S B) (s : S)
    → is_unfinished (m s).0 ≡ false
    → ((a : A) → (m s).0 ≡ finished a → is_unfinished (f a (m s).1).0 ≡ false)
    → is_unfinished ((m >>= f) s).0 ≡ false
unfolding ◌>>=◌
bind_ends {S} {A} {B} m f s e h = after (m s).0 refl
  where
    after : (r : Outcome A) → (m s).0 ≡ r → is_unfinished (continue r f (m s).1).0 ≡ false
    after (finished a) q = h a q
    after (raised x) q = refl
    after unfinished q = cc

module _ {ℓ κ ν} {S : Type ℓ} {A : Type κ} {B : Type ν} {now : Exec S ℕ} {deadline : ℕ}
    {late : A → Exec S B} {test : A → Exec S (Option B)} {rest : ℕ → A → Exec S A} (at : S → ℕ)
    (advances : Advances now deadline late test rest at) where
  option_ends :
      (next : A → Exec S B) (t : ℕ) (a : A) (o : Option B) (s : S)
      → t < deadline
      → ((a : A) (s' : S) → at s < at s' → is_unfinished (next a s').0 ≡ false)
      → is_unfinished (on_option o (rest t a >>= next) pure s).0 ≡ false
  unfolding on_option pure
  option_ends next t a (some b) s early h = refl
  option_ends next t a none s early h =
      bind_ends (rest t a) next s ((advances.rest_ends t a).at s)
        (λ a' e. h a' (rest t a s).1 (advances.rest_passes t a s early))

  -- Unless the deadline has come, a round goes on at a later time.
  round_ends :
      (next : A → Exec S B) (a : A) (s : S)
      → ((a : A) (s' : S) → at s < deadline → at s < at s' → is_unfinished (next a s').0 ≡ false)
      → is_unfinished (round_until now deadline late test rest next a s).0 ≡ false
  unfolding round_until branch
  round_ends next a s h = bind_ends now _ s (advances.now_ends.at s) (λ t e.
      let (low, high) = advances.now_reads s t e in
      let s1 = (now s).1 in
      elim (Bool-cases (leb deadline t)) [
        | inl l ↦ rw (l, branch) ((advances.late_ends a).at s1)
        | inr l ↦
            rw (l, branch)
              (bind_ends (test a) _ s1 ((advances.test_ends a).at s1) (λ o q.
                let kept : at s ≤ at (test a s1).1 =
                  (advances.test_passes a (at s)).at s1 (omega arith) in
                option_ends next t a o (test a s1).1 (ground arith)
                  (λ a' s' later. h a' s' (ground arith) (omega arith))))
      ])

  -- With fuel for the time up to the deadline and one round more, the loop ends.
  pub loop_until_ends :
      (fuel : ℕ) (a : A) (s : S)
      → deadline ≤ at s + fuel
      → is_unfinished (loop_until now deadline late test rest (suc fuel) a s).0 ≡ false
  unfolding loop_until
  loop_until_ends zero a s h = round_ends _ a s (λ a' s' early later. absurd (omega arith))
  loop_until_ends (suc fuel) a s h =
      round_ends _ a s (λ a' s' early later. loop_until_ends fuel a' s' (omega arith))
