-- ===== src/Spoke/Queue/Tests.antt =====
-- Runs of the writer of spoke/writer_queue.py.

use things_team.Base.{
  ℕ, ◌+◌, ◌≤◌, ◌≡◌, refl, String, false, none, some, [], ◌∷◌, str_eq, arith, if◌then◌else◌,
}
use things_team.Json.{Json, num, text, arr, obj, nil, cons, Fields, end, field, get_field}
use things_team.Json.Access.{Texts, dict, field_of, find_field, first}
use things_team.Exec.{finished, returned, raised, pure, raise, branch, on_option, ◌>>=◌, ◌>>◌}
use things_team.Exec.Ends.{is_unfinished}
use things_team.Hub.Ack.{clip}
use things_team.Hub.Schema.{Time, completed}
use things_team.Spoke.Outbound.{Candidate, refusal, envelope, max_notes, or_empty, or_null}
use things_team.Spoke.Outbound.Envelope.{items}
use things_team.Spoke.Queue.{
  Request, Gateway, QueueWriter, create_attributes, rstrip_slash, request, settled, poll_test,
  poll_rest, not_acked, poll, await_op, accepted, submit_and_wait, set_terminal,
}
use things_team.Spoke.Queue.Created.{Attributes, created-Attributes}
use things_team.Spoke.Queue.Ends.{Passes, ending, submitted, writing_ends}
use things_team.Spoke.Queue.Posts.{Counts, submitted_once}
use things_team.Exec.Until.{loop_until, round_until}
use things_team.Spoke.Call.{call, clock_time, clock_sleep}

-- A queue that answers the POST with a record that waits, and each GET with one that is applied
pub record Queued : Type 0 where
  pub time : Time
  pub posts : ℕ

abbrev texts : Texts
texts = record {
  key_error = λ k. k;
  no_key = λ k v. k;
  no_get = λ v. "no get";
  no_first = λ v. "no first";
  no_items = λ v. "no items";
  str = λ v. "7";
}

abbrev a_record : String → Json
a_record status = obj (field "id" (num 7) (field "status" (text status) end))

abbrev gateway : Gateway Queued
gateway = record {
  token = λ w. (returned "key", w);
  open_url = λ r w.
      if str_eq r.method "POST"
      then (
        returned (obj (field "results" (arr (cons (a_record "queued") nil)) end)),
        record w { posts = w.posts + 1 },
      )
      else (returned (a_record "applied"), w);
  clock = record { now = λ w. (w.time, w); sleep = λ t w. record w { time = w.time + t } };
}

abbrev writer : QueueWriter
writer = record {
  queue_url = "http://queue";
  ack_timeout = 18;
  poll_interval = 2;
  agent = "hub";
  rejected_text = λ v. "rejected";
  failed_text = λ i v. "failed";
  not_acked_text = λ i v. "not acked";
}

abbrev fresh : Queued
fresh = record { time = 5; posts = 0 }

open_passes : (r : Request) (w : Queued) → w.time ≤ (gateway.open_url r w).1.time
open_passes r w = ground arith

passes : Passes gateway
passes = record {
  at = λ w. w.time;
  ticks = record {
    now_reads = λ w. omega arith;
    now_passes = λ w. omega arith;
    sleep_passes = λ t w. omega arith;
  };
  token_passes = λ w. omega arith;
  open_passes = open_passes;
}

open_counts :
    (r : Request) (w : Queued)
    → (gateway.open_url r w).1.posts ≡ (if str_eq r.method "POST" then w.posts + 1 else w.posts)
open_counts r w = ground arith

counts : Counts gateway (λ w. w.posts)
counts = record {
  token_counts = λ w. refl;
  now_counts = λ w. refl;
  sleep_counts = λ t w. refl;
  open_counts = open_counts;
}

writing_ends_example :
    is_unfinished (submitted gateway texts writer 19 (ending "T1" completed) fresh).0 ≡ false
writing_ends_example =
    writing_ends gateway passes texts writer 18 (omega arith) (omega arith) (ending "T1" completed)
      fresh

submitted_once_example :
    (submitted gateway texts writer 19 (ending "T1" completed) fresh).1.posts ≤ 1
submitted_once_example = submitted_once counts texts writer 19 (ending "T1" completed) fresh

stripped : rstrip_slash "http://queue//" ≡ "http://queue"
unfolding rstrip_slash
stripped = refl

abbrev tea : Candidate
tea = record {
  uuid = "T1";
  title = some "tea";
  notes = none;
  checklist = "pot" ∷ [];
  tags = "for-bob" ∷ [];
  when_date = some "2026-07-04";
  deadline = none;
  is_repeating = false;
  kind = 0;
}

not_refused : refusal tea ≡ none
unfolding refusal
not_refused = refl

created-Attributes_example :
    (fs : Fields) × (create_attributes texts (envelope tea) "from-ann" fresh ≡ (finished fs, fresh))
    × Attributes
        (text (or_empty tea.title))
        (text (clip max_notes (or_empty tea.notes)))
        "from-ann"
        (or_null tea.when_date)
        (or_null tea.deadline)
        (items tea.checklist)
        fs
created-Attributes_example = created-Attributes texts tea "from-ann" fresh not_refused

-- The answer to the last poll says that the write was applied, but the time is over.
answer_dropped :
    (submitted gateway texts (record writer { ack_timeout = 2 }) 19 (ending "T1" completed) fresh).0
    ≡ raised "not acked"
unfolding set_terminal submit_and_wait request accepted await_op poll poll_test poll_rest settled
    not_acked dict field_of find_field first get_field call clock_time clock_sleep pure raise branch
    on_option ◌>>=◌ ◌>>◌ loop_until round_until
answer_dropped = refl
