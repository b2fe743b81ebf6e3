-- ===== src/Spoke/Main.antt =====
-- The loop of spoke/main.py.
pub mod Alive
use things_team.Base.{ℕ, zero, suc, String, Bool, true, false, List, leb, if◌then◌else◌}
use Prim.Native.Nat.{◌*◌}
use things_team.Exec.{Exec, pure, branch, attempt, ◌>>=◌, ◌>>◌}
use things_team.Hub.Schema.{Time}
use things_team.Spoke.Outbound.{Candidate, Route, Trigger}
use things_team.Spoke.World.{World, Spoke, pause}
use things_team.Spoke.Inbound.{Settings}
use things_team.Spoke.Tick.{tick_local, tick_inbound}

-- `tick_seconds` and `poll_wait` of the configuration
pub record Cadence : Type 0 where
  pub tick_seconds : Time
  pub poll_wait : Time

-- `min(x, 300)`
abbrev pub capped : ℕ → ℕ
capped x = if leb x 300 then x else 300

module _ {ℓ} {W : Type ℓ} (world : World W) (c : Settings) (lower : String → String)
    (keys : List Trigger → List String) (marks : W → Candidate → Time) (routes : List Route)
    (fuel : ℕ) (cadence : Cadence) where
  -- The `try`: whether no exception has come
  unfoldable pub try_tick : Exec (Spoke W) Bool
  try_tick =
      attempt
        (tick_local world c lower keys marks routes fuel
          >> tick_inbound world c lower keys marks routes fuel
          >> pure true)
        (λ e. pure false)

  -- The sleep at the end of a round, where the hub does not hold the poll
  unfoldable pub idle : Exec (Spoke W) (Unit {0})
  idle = branch (leb cadence.poll_wait 0) (pause (world.clock.sleep cadence.tick_seconds)) (pure tt)

  unfoldable pub after_try : ℕ → Bool → Exec (Spoke W) ℕ
  after_try backoff true = idle >> pure 5
  after_try backoff false =
      pause (world.clock.sleep (capped backoff)) >> pure (capped (backoff * 2))

  -- One round of `while True`, from one value of `backoff` to the next
  unfoldable pub round : ℕ → Exec (Spoke W) ℕ
  round backoff = try_tick >>= after_try backoff

  unfoldable pub rounds : ℕ → ℕ → Exec (Spoke W) ℕ
  rounds zero backoff = pure backoff
  rounds (suc n) backoff = round backoff >>= rounds n
