-- ===== src/Spoke/Queue/Ends.antt =====
-- The wait for the queue ends.

use things_team.Base.{
  ◌≡◌, ℕ, suc, ◌+◌, ◌≤◌, ◌<◌, String, Bool, true, false, Option, none, List, arith,
}
use things_team.Json.{Json, Fields}
use things_team.Json.Access.{Texts}
use things_team.Json.Access.Rules.{
  dict-Ends, dict-Keeps, field_of-Keeps, iterate-Keeps, field_of-Ends, first-Ends, iterate-Ends,
}
use things_team.Exec.{Exec, pure, ◌>>◌}
use things_team.Exec.Ends.{Ends, is_unfinished, ends_rules}
use things_team.Exec.Keeps.{Keeps, keeps_rules, Keeps-pure, Keeps-branch, Keeps-bind, then-Keeps}
use things_team.Exec.Until.{Advances, bind_ends, loop_until_ends}
use things_team.Hub.Schema.{Time, Terminal}
use things_team.Spoke.Call.{
  call, Ticks, call-Ends, call-Keeps, clock_time, clock_time-Ends, clock_sleep, clock_sleep-Ends,
  clock_time-reads,
}
use things_team.Spoke.Queue.{
  Request, Gateway, QueueWriter, request, settled, poll_test, poll_rest, not_acked, poll, await_op,
  accepted, submit_and_wait, checklist_fields, create_attributes, create, set_terminal, set_tags,
  set_tags_and_terminal,
}

module _ {ℓ} {S : Type ℓ} (texts : Texts) where
  checklist_fields-Ends : (v : Json) → Ends {S = S} (checklist_fields texts v)
  unfolding checklist_fields
  checklist_fields-Ends v = search (ends_rules, iterate-Ends)

  pub create_attributes-Ends :
      (v : Json) (tag : String) → Ends {S = S} (create_attributes texts v tag)
  unfolding create_attributes
  create_attributes-Ends v tag =
      search (ends_rules, dict-Ends, field_of-Ends, checklist_fields-Ends)

  pub create_attributes-Keeps {ν} :
      (P : S → Type ν) (v : Json) (tag : String) → Keeps P (create_attributes texts v tag)
  unfolding create_attributes checklist_fields
  create_attributes-Keeps P v tag = Keeps-bind _ _ (dict-Keeps texts P _ v) (λ fs.
      Keeps-bind _ _ (field_of-Keeps texts P "title" fs) (λ t.
        Keeps-bind _ _
          (Keeps-branch _ _ _ (Keeps-bind _ _ (iterate-Keeps texts P _) (λ ts. Keeps-pure _))
            (Keeps-pure _))
          (λ items. Keeps-pure _)))

-- Time passes for the writer: no answer comes before its request.
pub record Passes {ℓ} {W : Type ℓ} (gateway : Gateway W) : Type ℓ where
  pub at : W → ℕ
  pub ticks : Ticks gateway.clock at
  pub token_passes : (w : W) → at w ≤ at (gateway.token w).1
  pub open_passes : (r : Request) (w : W) → at w ≤ at (gateway.open_url r w).1

module _ {ℓ} {W : Type ℓ} {gateway : Gateway W} (passes : Passes gateway) (texts : Texts)
    (q : QueueWriter) where
  request-Ends :
      (method path : String) (b : Option Json) → Ends (request gateway texts q method path b)
  unfolding request
  request-Ends method path b = search (ends_rules, call-Ends)

  token-Keeps : (k : ℕ) → Keeps (λ w. k ≤ passes.at w) (call gateway.token)
  token-Keeps k = call-Keeps gateway.token (λ w h. omega (arith, passes.token_passes w))

  open_url-Keeps : (k : ℕ) (r : Request) → Keeps (λ w. k ≤ passes.at w) (call (gateway.open_url r))
  open_url-Keeps k r =
      call-Keeps (gateway.open_url r) (λ w h. omega (arith, passes.open_passes r w))

  request-Keeps :
      (k : ℕ) (method path : String) (b : Option Json)
      → Keeps (λ w. k ≤ passes.at w) (request gateway texts q method path b)
  unfolding request
  request-Keeps k method path b = Keeps-bind _ _ (token-Keeps k) (λ t. open_url-Keeps k _)

  settled-Ends : (i : Json) (fs : Fields) → Ends (settled gateway texts q i fs)
  unfolding settled
  settled-Ends i fs = search ends_rules

  settled-Keeps : (P : W → Type 0) (i : Json) (fs : Fields) → Keeps P (settled gateway texts q i fs)
  unfolding settled
  settled-Keeps P i fs = search keeps_rules

  poll-Advances :
      (i : Json) (deadline : Time)
      → 0 < q.poll_interval
      → Advances
          (clock_time gateway.clock)
          deadline
          (not_acked gateway texts q i)
          (poll_test gateway texts q i)
          (poll_rest gateway texts q i)
          passes.at
  unfolding poll_test poll_rest not_acked clock_sleep
  poll-Advances i deadline interval = record {
    now_ends = clock_time-Ends gateway.clock;
    now_reads = clock_time-reads passes.ticks;
    late_ends = λ rec. search (ends_rules, dict-Ends);
    test_ends = λ rec. search (ends_rules, dict-Ends, settled-Ends);
    test_passes = λ rec k. Keeps-bind _ _ (dict-Keeps texts _ _ rec) (settled-Keeps _ i);
    rest_ends = λ t rec. search (ends_rules, clock_sleep-Ends, request-Ends);
    rest_passes = λ t rec w early.
        then-Keeps {P = λ w'. passes.at w < passes.at w'} _ _ w
          (omega (arith, passes.ticks.sleep_passes q.poll_interval w))
          (request-Keeps (suc (passes.at w)) _ _ none);
  }

-- A call of the writer
pub data Writing : Type 0 where
  creating : Json → String → Option String → Writing
  ending : String → Terminal → Writing
  tagging : String → List String → Writing
  tagging_and_ending : String → List String → Terminal → Writing

module _ {ℓ} {W : Type ℓ} (gateway : Gateway W) (texts : Texts) (q : QueueWriter) (fuel : ℕ) where
  abbrev pub submitted : Writing → Exec W Bool
  submitted (creating v tag key) = create gateway texts q fuel v tag key >> pure true
  submitted (ending u x) = set_terminal gateway texts q fuel u x
  submitted (tagging u gs) = set_tags gateway texts q fuel u gs
  submitted (tagging_and_ending u gs x) = set_tags_and_terminal gateway texts q fuel u gs x

module _ {ℓ} {W : Type ℓ} (gateway : Gateway W) (passes : Passes gateway) (texts : Texts)
    (q : QueueWriter) (fuel : ℕ) (interval : 0 < q.poll_interval)
    (enough : q.ack_timeout ≤ fuel) where
  await_op-Ends : (i rec : Json) → Ends (await_op gateway texts q (suc fuel) i rec)
  unfolding await_op poll
  await_op-Ends i rec = record {
    at = λ w.
        bind_ends (clock_time gateway.clock) _ w ((clock_time-Ends gateway.clock).at w) (λ t e.
          let (low, high) = clock_time-reads passes.ticks w t e in
          loop_until_ends passes.at (poll-Advances passes texts q i (t + q.ack_timeout) interval)
            fuel rec (clock_time gateway.clock w).1 (omega arith));
  }

  accepted-Ends : (rec : Json) → Ends (accepted gateway texts q (suc fuel) rec)
  unfolding accepted
  accepted-Ends rec = search (ends_rules, dict-Ends, field_of-Ends, await_op-Ends)

  submit-Ends :
      (op : Json) (key : Option String) → Ends (submit_and_wait gateway texts q (suc fuel) op key)
  unfolding submit_and_wait
  submit-Ends op key =
      search (
        ends_rules,
        dict-Ends,
        field_of-Ends,
        first-Ends,
        request-Ends passes texts q,
        accepted-Ends,
      )

  submitted-Ends : (x : Writing) → Ends (submitted gateway texts q (suc fuel) x)
  unfolding create set_terminal set_tags set_tags_and_terminal
  submitted-Ends (creating v tag key) =
      search (ends_rules, create_attributes-Ends, submit-Ends) depth 9
  submitted-Ends (ending u x) = search (ends_rules, submit-Ends)
  submitted-Ends (tagging u gs) = search (ends_rules, submit-Ends)
  submitted-Ends (tagging_and_ending u gs x) = search (ends_rules, submit-Ends)

  -- Where time passes and the writer sleeps between two polls, every write by the queue ends, by a value or an
  -- exception, if the rounds are one more than the time allowed for an answer, whatever the queue says.
  pub writing_ends :
      (x : Writing) (w : W) → is_unfinished (submitted gateway texts q (suc fuel) x w).0 ≡ false
  writing_ends x w = (submitted-Ends x).at w
