-- ===== src/Spoke/Main/Alive.antt =====
-- The loop goes on, with a pause between 5 seconds and 5 minutes after an exception.
use things_team.Base.{◌≡◌, ℕ, ◌≤◌, ◌<◌, String, List}
use things_team.Exec.{Exec, finished}
use things_team.Hub.Schema.{Time}
use things_team.Spoke.Outbound.{Candidate, Route, Trigger}
use things_team.Spoke.World.{World, Spoke}
use things_team.Spoke.Inbound.{Settings}
use things_team.Spoke.Inbound.Ends.{Passes}
use things_team.Spoke.Main.{Cadence}

-- A value of `backoff`
abbrev pub IsBackoff : ℕ → Type 0
IsBackoff b = (5 ≤ b) × (b ≤ 300)

module _ {ℓ} {W : Type ℓ} (world : World W) (c : Settings) (passes : Passes world) (fuel : ℕ)
    (interval : 0 < c.correlate_interval) (enough : c.correlate_timeout ≤ fuel)
    (lower : String → String) (keys : List Trigger → List String) (marks : W → Candidate → Time)
    (routes : List Route) (cadence : Cadence) where
  abbrev Goes : Exec (Spoke W) ℕ → Spoke W → Type 0
  Goes m s = (b : ℕ) × ((m s).0 ≡ finished b) × IsBackoff b
