-- ===== src/Spoke/Tick.antt =====
-- `tick`, `tick_local` and `tick_inbound` of spoke/core.py.
pub mod Once
pub mod Ends
use things_team.Base.{ℕ, String, List, ◌∷◌, []}
use things_team.Exec.{Exec, finished, pure, ◌>>=◌, ◌>>◌}
use things_team.Hub.Schema.{Time}
use things_team.Spoke.Outbound.{Candidate, Route, Trigger, all_triggers, outbound_loop}
use things_team.Spoke.World.{World, Spoke, ask}
use things_team.Spoke.Inbound.{Settings, inbound}
use things_team.Spoke.Watch.{observe_and_retag}

pub data Phase : Type 0 where
  whole local_only inbound_only : Phase

-- `keys` gives the sorted keys of the dict of triggers, `marks` the times at which the outbound phase
-- marks its candidates, and `fuel` bounds the rounds of one correlation.
module _ {ℓ} {W : Type ℓ} (world : World W) (c : Settings) (lower : String → String)
    (keys : List Trigger → List String) (marks : W → Candidate → Time) (routes : List Route)
    (fuel : ℕ) where
  unfoldable pub push_out : List Trigger → List Candidate → Exec (Spoke W) (Unit {0})
  push_out ts cs s =
      let (w, m) =
        outbound_loop lower (marks s.world) world.hub.push_transfer ts cs s.world s.memory in
      (finished tt, record { memory = m; world = w })

  unfoldable pub outbound_asked : List Trigger → Exec (Spoke W) (Unit {0})
  outbound_asked [] = pure tt
  outbound_asked (t ∷ ts) = do
    cs ← ask (world.reader.outbound_candidates (keys (t ∷ ts)))
    push_out (t ∷ ts) cs

  -- `_outbound`, with the call of the reader
  unfoldable pub outbound_phase : Exec (Spoke W) (Unit {0})
  outbound_phase = outbound_asked (all_triggers lower routes [])

  unfoldable pub tick : Exec (Spoke W) (Unit {0})
  tick = do
    ask world.reader.refresh
    outbound_phase
    inbound world c fuel
    observe_and_retag world lower routes

  unfoldable pub tick_local : Exec (Spoke W) (Unit {0})
  tick_local = do ask world.reader.refresh; outbound_phase; observe_and_retag world lower routes

  unfoldable pub tick_inbound : Exec (Spoke W) (Unit {0})
  tick_inbound = inbound world c fuel

  unfoldable pub phase : Phase → Exec (Spoke W) (Unit {0})
  phase whole = tick
  phase local_only = tick_local
  phase inbound_only = tick_inbound

  -- One tick after the other, whatever the outcome of each.
  unfoldable pub run_phases : List Phase → Spoke W → Spoke W
  run_phases [] s = s
  run_phases (x ∷ xs) s = run_phases xs (phase x s).1
