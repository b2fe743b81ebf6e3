-- ===== src/Spoke/Call.antt =====
-- Calls that the writers make: of what they work with, and of the clock.
use things_team.Base.{◌≡◌, refl, ℕ, ◌+◌, ◌≤◌, false, arith}
use things_team.Exec.{Exec, Reply, returned, failed, outcome, finished}
use things_team.Exec.Ends.{Ends, is_unfinished}
use things_team.Exec.Keeps.{Keeps}
use things_team.Hub.Schema.{Time}
use things_team.Spoke.World.{Op, Clock}

-- A call of what the writer works with
unfoldable pub call {ℓ κ} : {W : Type ℓ} {A : Type κ} → Op W A → Exec W A
call op w = let (r, w') = op w in (outcome r, w')

unfoldable pub clock_time {ℓ} : {W : Type ℓ} → Clock W → Exec W Time
clock_time c w = let (t, w') = c.now w in (finished t, w')

unfoldable pub clock_sleep {ℓ} : {W : Type ℓ} → Clock W → Time → Exec W (Unit {0})
clock_sleep c t w = (finished tt, c.sleep t w)

-- Time passes by the clock, and the world is at the time `at`.
pub record Ticks {ℓ} {W : Type ℓ} (c : Clock W) (at : W → ℕ) : Type ℓ where
  pub now_reads : (w : W) → at w ≤ (c.now w).0
  pub now_passes : (w : W) → (c.now w).0 ≤ at (c.now w).1
  pub sleep_passes : (t : Time) (w : W) → at w + t ≤ at (c.sleep t w)

of_reply {ν} : {B : Type ν} (r : Reply B) → is_unfinished (outcome r) ≡ false
of_reply (returned a) = refl
of_reply (failed e) = refl

module _ {ℓ} {W : Type ℓ} where
  pub call-Ends {κ} : {A : Type κ} (op : Op W A) → Ends (call op)
  unfolding call
  call-Ends op = record { at = λ s. of_reply (op s).0 }

  pub clock_time-Ends : (c : Clock W) → Ends (clock_time c)
  unfolding clock_time
  clock_time-Ends c = record { at = λ s. refl }

  pub clock_sleep-Ends : (c : Clock W) (t : Time) → Ends (clock_sleep c t)
  unfolding clock_sleep
  clock_sleep-Ends c t = record { at = λ s. refl }

  pub call-Keeps {κ ν} :
      {A : Type κ} {P : W → Type ν} (op : Op W A) → ((w : W) → P w → P (op w).1) → Keeps P (call op)
  unfolding call
  call-Keeps op h = record { at = h }

module _ {ℓ} {W : Type ℓ} {c : Clock W} {at : W → ℕ} (ticks : Ticks c at) where
  pub clock_time-reads :
      (w : W) (t : ℕ) → (clock_time c w).0 ≡ finished t → (at w ≤ t) × (t ≤ at (clock_time c w).1)
  unfolding clock_time
  clock_time-reads w t h = ground (arith, ticks.now_reads w, ticks.now_passes w)

  pub clock_time-Keeps : (k : ℕ) → Keeps (λ w. k ≤ at w) (clock_time c)
  unfolding clock_time
  clock_time-Keeps k = record { at = λ w h. omega (arith, ticks.now_reads w, ticks.now_passes w) }
