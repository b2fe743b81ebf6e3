-- ===== src/Spoke/Tick/Ends.antt =====
-- A tick ends, and nothing that goes wrong in its inbound phase gets out of it.
use things_team.Base.{
  ◌≡◌, refl, ℕ, suc, ◌≤◌, ◌<◌, String, true, false, Option, none, some, List, ◌∷◌, [],
}
use things_team.Exec.{Outcome, finished, raised, unfinished}
use things_team.Exec.Ends.{Ends, Finishes-Ends, is_unfinished, is_finished, Ends-then, Ends-pure}
use things_team.Hub.Schema.{RowId, Time, Terminal}
use things_team.Hub.Observe.{Watch}
use things_team.Spoke.Outbound.{Candidate, Route, Trigger}
use things_team.Spoke.World.{World, Spoke}
use things_team.Spoke.Inbound.{Settings, inbound}
use things_team.Spoke.Inbound.Ends.{Passes, call_rules, inbound-Finishes}
use things_team.Spoke.Watch.{
  retag_sender_copy, report, retag_if_applied, react, watch_one, watch_all, observe_and_retag,
}
use things_team.Spoke.Tick.{
  push_out, outbound_asked, outbound_phase, tick, tick_local, tick_inbound, Phase, whole,
  local_only, inbound_only, phase,
}

module _ {ℓ} {W : Type ℓ} (world : World W) (lower : String → String) (routes : List Route) where
  retag-Ends : (w : Watch) → Ends (retag_sender_copy world lower routes w)
  unfolding retag_sender_copy
  retag-Ends w = search call_rules depth 9

  retag_if_applied-Ends : (w : Watch) → Ends (retag_if_applied world lower routes w)
  unfolding retag_if_applied
  retag_if_applied-Ends w = search (call_rules, retag-Ends)

  report-Ends : (i : RowId) (x : Terminal) → Ends (report world lower routes i x)
  unfolding report
  report-Ends i x = search call_rules

  react-Ends : (w : Watch) (o : Option Terminal) → Ends (react world lower routes w o)
  unfolding react
  react-Ends w none = retag_if_applied-Ends w
  react-Ends w (some x) = search (call_rules, retag_if_applied-Ends, report-Ends)

  watch_one-Ends : (w : Watch) → Ends (watch_one world lower routes w)
  unfolding watch_one
  watch_one-Ends w = search (call_rules, react-Ends)

  watch_all-Ends : (ws : List Watch) → Ends (watch_all world lower routes ws)
  unfolding watch_all
  watch_all-Ends [] = Ends-pure tt
  watch_all-Ends (w ∷ ws) = Ends-then _ _ (watch_one-Ends w) (watch_all-Ends ws)

  observe_and_retag-Ends : Ends (observe_and_retag world lower routes)
  unfolding observe_and_retag
  observe_and_retag-Ends = search (call_rules, watch_all-Ends)

is_unit : (r : Outcome (Unit {0})) → is_finished r ≡ true → r ≡ finished tt
is_unit (finished u) h = refl
is_unit (raised e) h = cc
is_unit unfinished h = cc

module _ {ℓ} {W : Type ℓ} (world : World W) (c : Settings) (passes : Passes world) (fuel : ℕ)
    (interval : 0 < c.correlate_interval) (enough : c.correlate_timeout ≤ fuel) where
  -- Where time passes and the interval between two looks is not zero, the inbound phase, with fuel for one round more
  -- than the time that a correlation may take, ends and raises nothing, whatever the hub, the reader and the
  -- writer raise.
  pub inbound_finishes : (s : Spoke W) → (inbound world c (suc fuel) s).0 ≡ finished tt
  inbound_finishes s = is_unit _ ((inbound-Finishes c passes fuel interval enough).at s)

  module _ (lower : String → String) (keys : List Trigger → List String)
      (marks : W → Candidate → Time) (routes : List Route) where
    push_out-Ends :
        (ts : List Trigger) (cs : List Candidate)
        → Ends (push_out world c lower keys marks routes (suc fuel) ts cs)
    unfolding push_out
    push_out-Ends ts cs = record { at = λ s. refl }

    outbound_asked-Ends :
        (ts : List Trigger) → Ends (outbound_asked world c lower keys marks routes (suc fuel) ts)
    unfolding outbound_asked
    outbound_asked-Ends [] = Ends-pure tt
    outbound_asked-Ends (t ∷ ts) = search (call_rules, push_out-Ends)

    inbound-Ends : Ends (inbound world c (suc fuel))
    inbound-Ends = Finishes-Ends _ (inbound-Finishes c passes fuel interval enough)

    pub phase-Ends : (x : Phase) → Ends (phase world c lower keys marks routes (suc fuel) x)
    unfolding phase tick tick_local tick_inbound outbound_phase
    phase-Ends whole =
        search (call_rules, outbound_asked-Ends, inbound-Ends, observe_and_retag-Ends) depth 9
    phase-Ends local_only = search (call_rules, outbound_asked-Ends, observe_and_retag-Ends) depth 9
    phase-Ends inbound_only = inbound-Ends

    -- Under the same conditions every kind of tick ends: no correlation in it waits for ever.
    pub tick_ends :
        (x : Phase) (s : Spoke W)
        → is_unfinished (phase world c lower keys marks routes (suc fuel) x s).0 ≡ false
    tick_ends x s = (phase-Ends x).at s
