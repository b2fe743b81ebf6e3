-- ===== src/Spoke/Tick/Once.antt =====
-- Whatever the ticks, the writer's `create` is called once at most for a delivery.
use things_team.Base.{
  ◌≡◌, refl, ℕ, ◌≤◌, String, Bool, Option, none, some, List, ◌∷◌, [], arith, if◌then◌else◌,
}
use things_team.Json.{Json}
use things_team.Exec.Keeps.{Keeps, Keeps-then}
use things_team.Hub.Schema.{RowId, Time, Terminal}
use things_team.Hub.Observe.{Watch}
use things_team.Spoke.State.{SpokeState, journal_open, mark_sent, mark_retagged, mark_observed}
use things_team.Spoke.Outbound.{
  Candidate, Route, Trigger, envelope, pushed, outbound_one, outbound_loop,
}
use things_team.Spoke.Outbound.Once.{one_cases}
use things_team.Spoke.World.{World, Spoke, note}
use things_team.Spoke.Inbound.{Settings}
use things_team.Spoke.Inbound.Fired.{
  Tally, FiredOnce, note-FiredOnce, quiet_rules, inbound-FiredOnce,
}
use things_team.Spoke.Watch.{
  retag_sender_copy, report, retag_if_applied, react, watch_one, watch_all, observe_and_retag,
}
use things_team.Spoke.Tick.{
  push_out, outbound_asked, outbound_phase, tick, tick_local, tick_inbound, Phase, whole,
  local_only, inbound_only, phase, run_phases,
}

at_most_one : (b : Bool) {n : ℕ} → n ≤ (if b then 0 else 1) → n ≤ 1
at_most_one b {n} h = ground arith

module _ {ℓ} {W : Type ℓ} {world : World W} (tally : Tally world) where
  retagged-FiredOnce : (t : Time) (i : RowId) → Keeps (FiredOnce tally) (note (mark_retagged t i))
  unfolding mark_retagged journal_open
  retagged-FiredOnce t i = note-FiredOnce tally (mark_retagged t i) (λ k m. refl)

  observed-FiredOnce :
      (t : Time) (i : RowId) (x : Terminal) → Keeps (FiredOnce tally) (note (mark_observed t i x))
  unfolding mark_observed journal_open
  observed-FiredOnce t i x = note-FiredOnce tally (mark_observed t i x) (λ k m. refl)

  module _ (lower : String → String) (routes : List Route) where
    retag-FiredOnce : (w : Watch) → Keeps (FiredOnce tally) (retag_sender_copy world lower routes w)
    unfolding retag_sender_copy
    retag-FiredOnce w = search (quiet_rules, retagged-FiredOnce) depth 9

    retag_if_applied-FiredOnce :
        (w : Watch) → Keeps (FiredOnce tally) (retag_if_applied world lower routes w)
    unfolding retag_if_applied
    retag_if_applied-FiredOnce w = search (quiet_rules, retag-FiredOnce)

    report-FiredOnce :
        (i : RowId) (x : Terminal) → Keeps (FiredOnce tally) (report world lower routes i x)
    unfolding report
    report-FiredOnce i x = search (quiet_rules, observed-FiredOnce)

    react-FiredOnce :
        (w : Watch) (o : Option Terminal) → Keeps (FiredOnce tally) (react world lower routes w o)
    unfolding react
    react-FiredOnce w none = retag_if_applied-FiredOnce w
    react-FiredOnce w (some x) = search (quiet_rules, retag_if_applied-FiredOnce, report-FiredOnce)

    watch_one-FiredOnce : (w : Watch) → Keeps (FiredOnce tally) (watch_one world lower routes w)
    unfolding watch_one
    watch_one-FiredOnce w = search (quiet_rules, react-FiredOnce)

    watch_all-FiredOnce :
        (ws : List Watch) → Keeps (FiredOnce tally) (watch_all world lower routes ws)
    unfolding watch_all
    watch_all-FiredOnce [] = search quiet_rules
    watch_all-FiredOnce (w ∷ ws) = Keeps-then _ _ (watch_one-FiredOnce w) (watch_all-FiredOnce ws)

    observe_and_retag-FiredOnce : Keeps (FiredOnce tally) (observe_and_retag world lower routes)
    unfolding observe_and_retag
    observe_and_retag-FiredOnce = search (quiet_rules, watch_all-FiredOnce)

    pushed-quiet :
        (at : Candidate → Time) (c : Candidate) (m : SpokeState) (r : Option RowId × W) (k : RowId)
        → ((pushed lower at world.hub.push_transfer c m r).0 ≡ r.1)
          × (journal_open k (pushed lower at world.hub.push_transfer c m r).1 ≡ journal_open k m)
    unfolding mark_sent journal_open
    pushed-quiet at c m (none, w) k = (refl, refl)
    pushed-quiet at c m (some i, w) k = (refl, refl)

    pushed-FiredOnce :
        (at : Candidate → Time) (c : Candidate) (to : String) (j : Json) (w : W) (m : SpokeState)
        → FiredOnce tally (record { memory = m; world = w })
        → let (w', m') =
            pushed lower at world.hub.push_transfer c m (world.hub.push_transfer to c.uuid j 1 w) in
          FiredOnce tally (record { memory = m'; world = w' })
    unfolding FiredOnce
    pushed-FiredOnce at c to j w m h k =
        let (e, f) = pushed-quiet at c m (world.hub.push_transfer to c.uuid j 1 w) k in
        rw (e, f, tally.push_quiet to c.uuid j 1 w k) (h k)

    push_loop-FiredOnce :
        (at : Candidate → Time) (ts : List Trigger) (cs : List Candidate) (w : W) (m : SpokeState)
        → FiredOnce tally (record { memory = m; world = w })
        → let (w', m') = outbound_loop lower at world.hub.push_transfer ts cs w m in
          FiredOnce tally (record { memory = m'; world = w' })
    unfolding outbound_loop
    push_loop-FiredOnce at ts [] w m h = h
    push_loop-FiredOnce at ts (c ∷ cs) w m h =
        let (w', m') = outbound_one lower at world.hub.push_transfer ts c w m in
        push_loop-FiredOnce at ts cs w' m' (
          one_cases lower at world.hub.push_transfer ts
            (λ x. FiredOnce tally (record { memory = x.1; world = x.0 })) c w m (λ done. h)
            (λ to go. pushed-FiredOnce at c to (envelope c) w m h))

    module _ (c : Settings) (keys : List Trigger → List String) (marks : W → Candidate → Time)
        (fuel : ℕ) where
      push_out-FiredOnce :
          (ts : List Trigger) (cs : List Candidate)
          → Keeps (FiredOnce tally) (push_out world c lower keys marks routes fuel ts cs)
      unfolding push_out
      push_out-FiredOnce ts cs = record {
        at = λ s h. push_loop-FiredOnce (marks s.world) ts cs s.world s.memory h;
      }

      outbound_asked-FiredOnce :
          (ts : List Trigger)
          → Keeps (FiredOnce tally) (outbound_asked world c lower keys marks routes fuel ts)
      unfolding outbound_asked
      outbound_asked-FiredOnce [] = search quiet_rules
      outbound_asked-FiredOnce (t ∷ ts) = search (quiet_rules, push_out-FiredOnce)

      phase-FiredOnce :
          (x : Phase) → Keeps (FiredOnce tally) (phase world c lower keys marks routes fuel x)
      unfolding phase tick tick_local tick_inbound outbound_phase
      phase-FiredOnce whole =
          search
            (quiet_rules, outbound_asked-FiredOnce, inbound-FiredOnce, observe_and_retag-FiredOnce)
            depth 9
      phase-FiredOnce local_only =
          search (quiet_rules, outbound_asked-FiredOnce, observe_and_retag-FiredOnce) depth 9
      phase-FiredOnce inbound_only = inbound-FiredOnce tally c fuel

      run-FiredOnce :
          (xs : List Phase) (s : Spoke W)
          → FiredOnce tally s
          → FiredOnce tally (run_phases world c lower keys marks routes fuel xs s)
      unfolding run_phases
      run-FiredOnce [] s h = h
      run-FiredOnce (x ∷ xs) s h = run-FiredOnce xs _ ((phase-FiredOnce x).at s h)

      -- However a spoke starts, as long as no delivery without a journal entry was written to Things before, and
      -- none with one more than once, then after any ticks, whatever failed in them, `create` has been called at
      -- most once for each delivery.
      pub fires_once :
          (xs : List Phase) (s : Spoke W) (k : RowId)
          → FiredOnce tally s
          → tally.fired (run_phases world c lower keys marks routes fuel xs s).world k ≤ 1
      unfolding FiredOnce
      fires_once xs s k h = at_most_one _ (run-FiredOnce xs s h k)
