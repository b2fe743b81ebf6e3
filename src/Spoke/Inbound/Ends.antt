-- ===== src/Spoke/Inbound/Ends.antt =====
-- The bounded wait of `_correlate` ends, and the inbound phase with it.
use things_team.Base.{
  ◌≡◌, refl, ℕ, zero, suc, ◌+◌, ◌≤◌, ◌<◌, String, Bool, true, false, Option, none, List, ◌∷◌, [],
  arith, inl, inr, leb, Bool-cases,
}
use things_team.Json.{Json}
use things_team.Exec.{Exec, Reply, returned, failed, outcome, pure, branch, ◌>>=◌, ◌>>◌, continue}
use things_team.Exec.Ends.{
  Ends, Finishes, is_unfinished, is_finished, ends_rules, finishes_rules, Ends-then, Ends-attempt,
  Finishes-attempt, Finishes-then, Finishes-pure, Ends-bind, Ends-continue, Ends-raise,
}
use things_team.Hub.Schema.{Time, Kind, create, complete, cancel}
use things_team.Hub.Rows.{has_text}
use things_team.Hub.Lease.{Entry, Body, payload, uuid}
use things_team.Spoke.State.{SpokeState, JournalEntry}
use things_team.Spoke.World.{Op, World, Spoke, ask, time_of, pause, recall, note}
use things_team.Spoke.Inbound.{
  Settings, correlate_round, correlate_loop, correlate, settle, fire, titled, resume, begin,
  apply_payload, apply_create, apply_terminal, apply_kind, apply_one, apply_all, inbound,
}

-- Time passes: a clock reads the time `at`, which no call moves back, and a sleep moves on.
pub record Passes {ℓ} {W : Type ℓ} (world : World W) : Type ℓ where
  pub at : W → Time
  pub now_reads : (w : W) → at w ≤ (world.clock.now w).0
  pub now_passes : (w : W) → (world.clock.now w).0 ≤ at (world.clock.now w).1
  pub sleep_passes : (t : Time) (w : W) → at w + t ≤ at (world.clock.sleep t w)
  pub refresh_passes : (w : W) → at w ≤ at (world.reader.refresh w).1
  pub correlate_passes :
      (t : String) (s : Time) (g : String) (us : List String) (w : W)
      → at w ≤ at (world.reader.correlate t s g us w).1

module _ {ℓ κ μ} {W : Type ℓ} {A : Type κ} {B : Type μ} where
  reply_ends :
      (r : Reply A) (f : A → Exec (Spoke W) B) (s : Spoke W)
      → ((a : A) → is_unfinished (f a s).0 ≡ false)
      → is_unfinished (continue (outcome r) f s).0 ≡ false
  reply_ends (returned a) f s h = h a
  reply_ends (failed e) f s h = refl

  -- What follows a call ends in the world after it.
  ask_ends :
      (op : Op W A) (f : A → Exec (Spoke W) B) (s : Spoke W)
      → ((a : A) → is_unfinished (f a (record s { world = (op s.world).1 })).0 ≡ false)
      → is_unfinished ((ask op >>= f) s).0 ≡ false
  unfolding ask ◌>>=◌
  ask_ends op f s h = reply_ends (op s.world).0 f _ h

  ask_then_ends :
      (op : Op W A) (n : Exec (Spoke W) B) (s : Spoke W)
      → is_unfinished (n (record s { world = (op s.world).1 })).0 ≡ false
      → is_unfinished ((ask op >> n) s).0 ≡ false
  unfolding ask ◌>>◌
  ask_then_ends op n s h = reply_ends (op s.world).0 (λ _. n) _ (λ _. h)

branch_ends {ℓ κ} :
    {S : Type ℓ} {A : Type κ} (b : Bool) (m n : Exec S A) (s : S)
    → is_unfinished (m s).0 ≡ false
    → is_unfinished (n s).0 ≡ false
    → is_unfinished (branch b m n s).0 ≡ false
unfolding branch
branch_ends true m n s em en = em
branch_ends false m n s em en = en

of_reply {ν} : {B : Type ν} (r : Reply B) → is_unfinished (outcome r) ≡ false
of_reply (returned a) = refl
of_reply (failed e) = refl

module _ {ℓ} {W : Type ℓ} where
  pub ask-Ends {κ} : {A : Type κ} (op : Op W A) → Ends (ask op)
  unfolding ask
  ask-Ends op = record { at = λ s. of_reply (op s.world).0 }

  pub time_of-Ends : (now : W → Time × W) → Ends (time_of now)
  unfolding time_of
  time_of-Ends now = record { at = λ s. refl }

  pub recall-Ends {κ} : {A : Type κ} (f : SpokeState → A) → Ends (recall {W = W} f)
  unfolding recall
  recall-Ends f = record { at = λ s. refl }

  pub note-Ends : (f : SpokeState → SpokeState) → Ends (note {W = W} f)
  unfolding note
  note-Ends f = record { at = λ s. refl }

pub ruleset call_rules = (ends_rules, ask-Ends, time_of-Ends, recall-Ends, note-Ends)

module _ {ℓ} {W : Type ℓ} {world : World W} (c : Settings) (passes : Passes world) where
  earlier :
      (s : Spoke W) (title : String) (start : Time) (tag : String) (us : List String)
      → passes.at s.world
        ≤ passes.at (world.reader.correlate title start tag us (world.reader.refresh s.world).1).1
  earlier s title start tag us = omega (
    arith,
    passes.refresh_passes s.world,
    passes.correlate_passes title start tag us (world.reader.refresh s.world).1,
  )

  -- The end of a round, after the call of the reader.
  tail_ends :
      (deadline : Time) (next : Exec (Spoke W) (Option String)) (s : Spoke W)
      → ((s' : Spoke W)
          → passes.at s.world < deadline
          → passes.at s.world + c.correlate_interval ≤ passes.at s'.world
          → is_unfinished (next s').0 ≡ false)
      → is_unfinished
          ((time_of world.clock.now >>= λ now.
              branch
                (leb deadline now)
                (pure none)
                (pause (world.clock.sleep c.correlate_interval) >> next))
            s).0
        ≡ false
  unfolding ◌>>=◌ ◌>>◌ time_of pause pure branch
  tail_ends deadline next s h =
      let (t, w) = world.clock.now s.world in
      let s' : Spoke W = record s { world = world.clock.sleep c.correlate_interval w } in
      elim (Bool-cases (leb deadline t)) [
        | inl late ↦ rw (late, branch) refl
        | inr early ↦
            rw (early, branch)
              (h s' (ground (arith, passes.now_reads s.world)) (
                omega (
                  arith,
                  passes.now_reads s.world,
                  passes.now_passes s.world,
                  passes.sleep_passes c.correlate_interval w,
                )))
      ]

  -- Unless the deadline has come, a round goes on later by the interval.
  round_ends :
      (title : String) (start : Time) (tag : String) (us : List String) (deadline : Time)
      (next : Exec (Spoke W) (Option String)) (s : Spoke W)
      → ((s' : Spoke W)
          → passes.at s.world < deadline
          → passes.at s.world + c.correlate_interval ≤ passes.at s'.world
          → is_unfinished (next s').0 ≡ false)
      → is_unfinished (correlate_round world c title start tag us deadline next s).0 ≡ false
  unfolding correlate_round pure
  round_ends title start tag us deadline next s h = ask_then_ends world.reader.refresh _ s (
      ask_ends (world.reader.correlate title start tag us) _ _ (λ o.
        branch_ends (has_text o) _ _ _ refl (
          tail_ends deadline next _ (λ s' a b.
            h s' (omega (arith, earlier s title start tag us))
              (omega (arith, earlier s title start tag us))))))

  loop_ends :
      (fuel : ℕ) (title : String) (start : Time) (tag : String) (us : List String) (deadline : Time)
      (s : Spoke W)
      → 0 < c.correlate_interval
      → deadline ≤ passes.at s.world + fuel
      → is_unfinished (correlate_loop world c (suc fuel) title start tag us deadline s).0 ≡ false
  unfolding correlate_loop
  loop_ends zero title start tag us deadline s i h =
      round_ends title start tag us deadline _ s (λ s' early later. absurd (omega arith))
  loop_ends (suc fuel) title start tag us deadline s i h =
      round_ends title start tag us deadline _ s
        (λ s' early later. loop_ends fuel title start tag us deadline s' i (omega arith))

  module _ (fuel : ℕ) (interval : 0 < c.correlate_interval)
      (enough : c.correlate_timeout ≤ fuel) where
    correlate-Ends :
        (title : String) (t0 : Time) (tag : String)
        → Ends (correlate world c (suc fuel) title t0 tag)
    unfolding correlate recall time_of ◌>>=◌
    correlate-Ends title t0 tag = record {
      at =
          λ s. loop_ends fuel title _ tag _ _ _ interval (omega (arith, passes.now_passes s.world));
    }

    settle-Ends :
        (d : Entry) (title : String) (t0 : Time) (tag : String)
        → Ends (settle world c (suc fuel) d title t0 tag)
    unfolding settle
    settle-Ends d title t0 tag = search (call_rules, correlate-Ends)

    resume-Ends :
        (d : Entry) (j : Json) (tag : String) (e : JournalEntry)
        → Ends (resume world c (suc fuel) d j tag e)
    unfolding resume titled
    resume-Ends d j tag e = search (call_rules, settle-Ends)

    begin-Ends :
        (d : Entry) (j : Json) (tag : String) (t0 : Time)
        → Ends (begin world c (suc fuel) d j tag t0)
    unfolding begin titled fire
    begin-Ends d j tag t0 = search (call_rules, settle-Ends) depth 9

    apply_payload-Ends :
        (d : Entry) (j : Json) (tag : String) → Ends (apply_payload world c (suc fuel) d j tag)
    unfolding apply_payload
    apply_payload-Ends d j tag = search (call_rules, begin-Ends, resume-Ends)

    apply_create-Ends : (d : Entry) (b : Body) → Ends (apply_create world c (suc fuel) d b)
    unfolding apply_create
    apply_create-Ends d (payload j from tag) = apply_payload-Ends d j tag
    apply_create-Ends d (uuid u) = Ends-raise _

    apply_terminal-Ends : (d : Entry) (b : Body) → Ends (apply_terminal world c d b)
    unfolding apply_terminal
    apply_terminal-Ends d (payload j from tag) = Ends-raise _
    apply_terminal-Ends d (uuid u) = search call_rules

    apply_kind-Ends : (k : Kind) (d : Entry) → Ends (apply_kind world c (suc fuel) k d)
    unfolding apply_kind
    apply_kind-Ends create d = apply_create-Ends d d.body
    apply_kind-Ends complete d = apply_terminal-Ends d d.body
    apply_kind-Ends cancel d = apply_terminal-Ends d d.body

    apply_one-Finishes : (d : Entry) → Finishes (apply_one world c (suc fuel) d)
    unfolding apply_one
    apply_one-Finishes d = search (finishes_rules, ask-Ends, apply_kind-Ends)

    apply_all-Finishes : (ds : List Entry) → Finishes (apply_all world c (suc fuel) ds)
    unfolding apply_all
    apply_all-Finishes [] = Finishes-pure tt
    apply_all-Finishes (d ∷ ds) = Finishes-then _ _ (apply_one-Finishes d) (apply_all-Finishes ds)

    pub inbound-Finishes : Finishes (inbound world c (suc fuel))
    unfolding inbound
    inbound-Finishes = search (finishes_rules, ends_rules, ask-Ends, apply_all-Finishes)
