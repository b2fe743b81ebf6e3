-- ===== src/Spoke/Local/Ends.antt =====
-- The two waits of the local writer end.
use things_team.Base.{
  ◌≡◌, refl, ℕ, suc, ◌+◌, ◌-◌, ◌≤◌, ◌<◌, String, Bool, true, false, Option, none, some, List, arith,
}
use things_team.Json.{Json}
use things_team.Json.Access.{Texts}
use things_team.Exec.{Exec, finished, pure, ◌>>◌}
use things_team.Exec.Ends.{
  Ends, is_unfinished, ends_rules, Ends-pure, Ends-raise, Ends-then, Ends-bind,
}
use things_team.Exec.Keeps.{Keeps}
use things_team.Exec.Until.{Advances, bind_ends, loop_until_ends}
use things_team.Hub.Schema.{Time, Terminal}
use things_team.Spoke.Call.{
  call-Ends, clock_time-Ends, clock_sleep, clock_sleep-Ends, clock_time-reads,
}
use things_team.Spoke.Queue.Ends.{create_attributes-Ends}
use things_team.Spoke.Focus.{
  Mac, LocalSettings, LocalWriter, Opened, opened, exited, timed_out, broken, inner, remember,
  good_front, stolen_at, read_front, frontmost_name, activate_app, time_now, residue, capture,
  restore, settle_test, settle_rest, settle_loop, settle_and_watch,
}
use things_team.Spoke.Local.{
  run_open, after_open, open_watched, open_json, verify_test, verify_rest, verify_loop, verify,
  check_state, check_tags, check_both, create, set_terminal, set_tags, set_tags_and_terminal,
}
use things_team.Spoke.Local.Passes.{
  Passes, settle_test-Keeps, verify_test-Keeps, check_state-Keeps, check_tags-Keeps,
  check_both-Keeps,
}

module _ {ℓ} {W : Type ℓ} where
  inner-Ends {κ} : {A : Type κ} (m : Exec W A) → Ends m → Ends (inner m)
  unfolding inner
  inner-Ends m e = record { at = λ s. e.at s.world }

  remember-Ends : (f : LocalWriter W → LocalWriter W) → Ends (remember f)
  unfolding remember
  remember-Ends f = record { at = λ s. refl }

  good_front-Ends : Ends (good_front {W = W})
  unfolding good_front
  good_front-Ends = record { at = λ s. refl }

  stolen_at-Ends : Ends (stolen_at {W = W})
  unfolding stolen_at
  stolen_at-Ends = record { at = λ s. refl }

ruleset local_rules = (
  ends_rules, call-Ends, inner-Ends, remember-Ends, good_front-Ends, stolen_at-Ends,
  clock_time-Ends, clock_sleep-Ends,
)

module _ {ℓ} {W : Type ℓ} (mac : Mac W) (texts : Texts) (c : LocalSettings) where
  read_front-Ends : Ends (read_front mac texts c)
  unfolding read_front
  read_front-Ends = search local_rules

  frontmost-Ends : Ends (frontmost_name mac texts c)
  unfolding frontmost_name
  frontmost-Ends = search (local_rules, read_front-Ends)

  activate-Ends : (name : String) → Ends (activate_app mac texts c name)
  unfolding activate_app
  activate-Ends name = search local_rules

  time_now-Ends : Ends (time_now mac texts c)
  unfolding time_now
  time_now-Ends = search local_rules

  residue-Ends : (last : Option String) → Ends (residue mac texts c last)
  unfolding residue
  residue-Ends last = search (local_rules, time_now-Ends)

  capture-Ends : Ends (capture mac texts c)
  unfolding capture
  capture-Ends = search (local_rules, frontmost-Ends, residue-Ends) depth 9

  restore-Ends : (o : Option String) → Ends (restore mac texts c o)
  unfolding restore
  restore-Ends none = Ends-pure tt
  restore-Ends (some name) =
      search (local_rules, frontmost-Ends, time_now-Ends, activate-Ends) depth 9

  settle_test-Ends :
      (b : Bool) (o : Option String) (u : Unit {0}) → Ends (settle_test mac texts c b o u)
  unfolding settle_test
  settle_test-Ends b o u = search (local_rules, restore-Ends)

  check_state-Ends : (u : String) (x : Terminal) → Ends (check_state mac texts c u x)
  unfolding check_state
  check_state-Ends u x = search local_rules

  check_tags-Ends : (u : String) (gs : List String) → Ends (check_tags mac texts c u gs)
  unfolding check_tags
  check_tags-Ends u gs = search local_rules

  check_both-Ends :
      (u : String) (gs : List String) (x : Terminal) → Ends (check_both mac texts c u gs x)
  unfolding check_both
  check_both-Ends u gs x = search (local_rules, check_state-Ends, check_tags-Ends)

module _ {ℓ} {W : Type ℓ} {mac : Mac W} (passes : Passes mac) (texts : Texts)
    (c : LocalSettings) where
  time_now-reads :
      (s : LocalWriter W) (t : ℕ)
      → (time_now mac texts c s).0 ≡ finished t
      → (passes.at s.world ≤ t) × (t ≤ passes.at (time_now mac texts c s).1.world)
  unfolding time_now inner
  time_now-reads s t e = clock_time-reads passes.ticks s.world t e

  verify-Advances :
      (check : Exec (LocalWriter W) Bool) (deadline : Time)
      → 0 < c.verify_interval
      → Ends check
      → ((k : ℕ) → Keeps (λ s. k ≤ passes.at s.world) check)
      → Advances
          (time_now mac texts c)
          deadline
          (λ u. pure false)
          (verify_test mac texts c check)
          (verify_rest mac texts c)
          (λ s. passes.at s.world)
  unfolding verify_test verify_rest inner clock_sleep
  verify-Advances check deadline interval ends kept = record {
    now_ends = time_now-Ends mac texts c;
    now_reads = time_now-reads;
    late_ends = λ u. Ends-pure false;
    test_ends = λ u. search (local_rules);
    test_passes = λ u k. verify_test-Keeps passes texts c k check u (kept k);
    rest_ends = λ t u. record { at = λ s. refl };
    rest_passes = λ t u s early. omega (arith, passes.ticks.sleep_passes c.verify_interval s.world);
  }

  settle-Advances :
      (b : Bool) (o : Option String) (deadline : Time)
      → 0 < c.sample_interval
      → Advances
          (time_now mac texts c)
          deadline
          (λ u. pure tt)
          (settle_test mac texts c b o)
          (settle_rest mac texts c deadline)
          (λ s. passes.at s.world)
  unfolding settle_rest inner clock_sleep
  settle-Advances b o deadline interval = record {
    now_ends = time_now-Ends mac texts c;
    now_reads = time_now-reads;
    late_ends = λ u. Ends-pure tt;
    test_ends = settle_test-Ends mac texts c b o;
    test_passes = λ u k. settle_test-Keeps passes texts c k b o u;
    rest_ends = λ t u. record { at = λ s. refl };
    rest_passes = λ t u s early. ground (
      arith,
      passes.ticks.sleep_passes c.sample_interval s.world,
      passes.ticks.sleep_passes (deadline - t) s.world,
    );
  }

-- A call of the writer
pub data Writing : Type 0 where
  creating : Json → String → Writing
  ending : String → Terminal → Writing
  tagging : String → List String → Writing
  tagging_and_ending : String → List String → Terminal → Writing

abbrev pub written {ℓ} :
    {W : Type ℓ} → Mac W → Texts → LocalSettings → ℕ → Writing → Exec (LocalWriter W) Bool
written mac texts c fuel (creating v tag) = create mac texts c fuel v tag >> pure true
written mac texts c fuel (ending u x) = set_terminal mac texts c fuel u x
written mac texts c fuel (tagging u gs) = set_tags mac texts c fuel u gs
written mac texts c fuel (tagging_and_ending u gs x) = set_tags_and_terminal mac texts c fuel u gs x

module _ {ℓ} {W : Type ℓ} (mac : Mac W) (passes : Passes mac) (texts : Texts) (c : LocalSettings)
    (fuel : ℕ) (settling : 0 < c.sample_interval) (settled : c.settle_time ≤ fuel)
    (verifying : 0 < c.verify_interval) (verified : c.verify_timeout ≤ fuel) where
  settle-Ends : (b : Bool) (o : Option String) → Ends (settle_and_watch mac texts c (suc fuel) b o)
  unfolding settle_and_watch settle_loop
  settle-Ends b o = record {
    at = λ s. bind_ends (time_now mac texts c) _ s ((time_now-Ends mac texts c).at s) (λ t e.
        let (low, high) = time_now-reads passes texts c s t e in
        loop_until_ends (λ s. passes.at s.world)
          (settle-Advances passes texts c b o (t + c.settle_time) settling) fuel tt
          (time_now mac texts c s).1 (omega arith));
  }

  verify-Ends :
      (check : Exec (LocalWriter W) Bool)
      → Ends check
      → ((k : ℕ) → Keeps (λ s. k ≤ passes.at s.world) check)
      → Ends (verify mac texts c (suc fuel) check)
  unfolding verify verify_loop
  verify-Ends check ends kept = record {
    at = λ s. bind_ends (time_now mac texts c) _ s ((time_now-Ends mac texts c).at s) (λ t e.
        let (low, high) = time_now-reads passes texts c s t e in
        loop_until_ends (λ s. passes.at s.world)
          (verify-Advances passes texts c check (t + c.verify_timeout) verifying ends kept) fuel tt
          (time_now mac texts c s).1 (omega arith));
  }

  after_open-Ends :
      (b : Bool) (o : Option String) (r : Opened) → Ends (after_open mac texts c (suc fuel) b o r)
  unfolding after_open
  after_open-Ends b o opened = settle-Ends b o
  after_open-Ends b o (exited n) = Ends-raise (c.exit_text n)
  after_open-Ends b o timed_out = Ends-raise c.timeout_text
  after_open-Ends b o (broken e) = Ends-raise e

  run_open-Ends : (url : String) → Ends (run_open mac texts c url)
  unfolding run_open
  run_open-Ends url = record { at = λ w. refl }

  open_watched-Ends :
      (v : Json) (p : Bool × Option String) → Ends (open_watched mac texts c (suc fuel) v p)
  unfolding open_watched
  open_watched-Ends v (b, o) = search (local_rules, run_open-Ends, after_open-Ends)

  open_json-Ends : (v : Json) → Ends (open_json mac texts c (suc fuel) v)
  unfolding open_json
  open_json-Ends v = Ends-bind _ _ (capture-Ends mac texts c) (open_watched-Ends v)

  written-Ends : (x : Writing) → Ends (written mac texts c (suc fuel) x)
  unfolding create set_terminal set_tags set_tags_and_terminal
  written-Ends (creating v tag) =
      Ends-then _ _ (Ends-bind _ _ (create_attributes-Ends texts v tag) (λ attrs. open_json-Ends _))
        (Ends-pure true)
  written-Ends (ending u x) = Ends-then _ _ (open_json-Ends _) (
      verify-Ends _ (check_state-Ends mac texts c u x)
        (λ k. check_state-Keeps passes texts c k u x))
  written-Ends (tagging u gs) = Ends-then _ _ (open_json-Ends _) (
      verify-Ends _ (check_tags-Ends mac texts c u gs)
        (λ k. check_tags-Keeps passes texts c k u gs))
  written-Ends (tagging_and_ending u gs x) = Ends-then _ _ (open_json-Ends _) (
      verify-Ends _ (check_both-Ends mac texts c u gs x)
        (λ k. check_both-Keeps passes texts c k u gs x))

  -- Where time passes and both intervals are not zero, every write by the local writer ends, by a value or an
  -- exception, if the rounds of each loop are one more than its time: neither the watch over the focus nor the
  -- check goes on for ever, whatever Things and the reader do.
  pub local_writing_ends :
      (x : Writing) (s : LocalWriter W)
      → is_unfinished (written mac texts c (suc fuel) x s).0 ≡ false
  local_writing_ends x s = (written-Ends x).at s
