-- ===== src/Spoke/Queue/Posts.antt =====
-- How often a write is submitted.
use things_team.Base.{
  ◌≡◌, ℕ, suc, ◌+◌, ◌≤◌, String, true, Option, none, arith, str_eq, if◌then◌else◌,
}
use things_team.Json.{Json, Fields}
use things_team.Json.Access.{Texts, dict, field_of, first}
use things_team.Json.Access.Rules.{dict-Keeps, field_of-Keeps, first-Keeps}
use things_team.Exec.{
  Exec, Outcome, finished, raised, unfinished, outcome, continue, pure, ◌>>=◌, ◌>>◌,
}
use things_team.Exec.Keeps.{
  Keeps, keeps_rules, Keeps-bind, Keeps-pure, Keeps-raise, Keeps-then, Keeps-on_option, bind-Keeps,
  then-Keeps,
}
use things_team.Exec.Until.{Keeps-loop_until}
use things_team.Hub.Schema.{Time}
use things_team.Spoke.Call.{call, call-Keeps, clock_time, clock_sleep}
use things_team.Spoke.Queue.{
  Request, Gateway, QueueWriter, request, settled, poll_test, poll_rest, not_acked, poll, await_op,
  accepted, submit_and_wait, create_attributes, create, set_terminal, set_tags,
  set_tags_and_terminal,
}
use things_team.Spoke.Queue.Ends.{
  create_attributes-Keeps, Writing, creating, ending, tagging, tagging_and_ending, submitted,
}

-- `posts` counts the POST requests that were opened.
pub record Counts {ℓ} {W : Type ℓ} (gateway : Gateway W) (posts : W → ℕ) : Type ℓ where
  pub token_counts : (w : W) → posts (gateway.token w).1 ≡ posts w
  pub now_counts : (w : W) → posts (gateway.clock.now w).1 ≡ posts w
  pub sleep_counts : (t : Time) (w : W) → posts (gateway.clock.sleep t w) ≡ posts w
  pub open_counts :
      (r : Request) (w : W)
      → posts (gateway.open_url r w).1 ≡ (if str_eq r.method "POST" then posts w + 1 else posts w)

module _ {ℓ} {W : Type ℓ} {gateway : Gateway W} {posts : W → ℕ} (counts : Counts gateway posts)
    (texts : Texts) (q : QueueWriter) (n : ℕ) where
  abbrev P : W → Type 0
  P w = posts w ≤ n

  token-Keeps : Keeps P (call gateway.token)
  token-Keeps = call-Keeps gateway.token (λ w h. omega (arith, counts.token_counts w))

  time-Keeps : Keeps P (clock_time gateway.clock)
  unfolding clock_time
  time-Keeps = record { at = λ w h. omega (arith, counts.now_counts w) }

  sleep-Keeps : (t : Time) → Keeps P (clock_sleep gateway.clock t)
  unfolding clock_sleep
  sleep-Keeps t = record { at = λ w h. omega (arith, counts.sleep_counts t w) }

  get-Keeps : (path : String) (b : Option Json) → Keeps P (request gateway texts q "GET" path b)
  unfolding request
  get-Keeps path b = Keeps-bind _ _ token-Keeps (λ t. call-Keeps _ (λ w h. omega (
    arith,
    counts.open_counts
        (record { method = "GET"; url = _; authorization = _; content_type = _; body = _ }) w,
  )))

  settled-Keeps : (i : Json) (fs : Fields) → Keeps P (settled gateway texts q i fs)
  unfolding settled
  settled-Keeps i fs = search keeps_rules

  poll-Keeps :
      (fuel : ℕ) (i : Json) (deadline : Time) (rec : Json)
      → Keeps P (poll gateway texts q fuel i deadline rec)
  unfolding poll poll_test poll_rest not_acked
  poll-Keeps fuel i deadline rec =
      Keeps-loop_until P deadline time-Keeps
        (λ r. Keeps-bind _ _ (dict-Keeps texts P _ r) (λ fs. Keeps-raise _))
        (λ r. Keeps-bind _ _ (dict-Keeps texts P _ r) (settled-Keeps i))
        (λ t r. Keeps-then _ _ (sleep-Keeps q.poll_interval) (get-Keeps _ none)) fuel rec

  await_op-Keeps : (fuel : ℕ) (i rec : Json) → Keeps P (await_op gateway texts q fuel i rec)
  unfolding await_op
  await_op-Keeps fuel i rec = Keeps-bind _ _ time-Keeps (λ t. poll-Keeps fuel i _ rec)

  accepted-Keeps : (fuel : ℕ) (rec : Json) → Keeps P (accepted gateway texts q fuel rec)
  unfolding accepted
  accepted-Keeps fuel rec = Keeps-bind _ _ (dict-Keeps texts P _ rec) (λ fs.
      Keeps-on_option _ _ _
        (Keeps-bind _ _ (field_of-Keeps texts P "id" fs) (λ i. await_op-Keeps fuel i rec))
        (λ e. Keeps-raise _))

  answered-Keeps :
      (fuel : ℕ) (resp : Json)
      → Keeps P (
          dict texts (texts.no_key "results") resp >>= λ fs.
          field_of texts "results" fs >>= λ results.
          first texts results >>= λ rec. accepted gateway texts q fuel rec)
  answered-Keeps fuel resp = Keeps-bind _ _ (dict-Keeps texts P _ resp) (λ fs.
      Keeps-bind _ _ (field_of-Keeps texts P "results" fs)
        (λ results. Keeps-bind _ _ (first-Keeps texts P results) (accepted-Keeps fuel)))

module _ {ℓ} {W : Type ℓ} {gateway : Gateway W} {posts : W → ℕ} (counts : Counts gateway posts)
    (texts : Texts) (q : QueueWriter) where
  continue_adds {κ μ} :
      {A : Type κ} {B : Type μ} (r : Outcome A) (f : A → Exec W B) (w : W) (n : ℕ)
      → posts w ≤ n
      → ((a : A) (w' : W) → posts (f a w').1 ≤ suc (posts w'))
      → posts (continue r f w).1 ≤ suc n
  continue_adds (finished a) f w n h k = omega (arith, k a w)
  continue_adds (raised e) f w n h k = omega arith
  continue_adds unfinished f w n h k = omega arith

  open_adds : (r : Request) (w : W) → posts (call (gateway.open_url r) w).1 ≤ suc (posts w)
  unfolding call
  open_adds r w = ground (arith, counts.open_counts r w)

  -- A request adds one at most.
  request_adds :
      (method path : String) (b : Option Json) (w : W)
      → posts (request gateway texts q method path b w).1 ≤ suc (posts w)
  unfolding request call ◌>>=◌
  request_adds method path b w =
      continue_adds (outcome (gateway.token w).0) _ (gateway.token w).1 (posts w)
        (omega (arith, counts.token_counts w)) (λ t w'. open_adds _ w')

  submit_adds :
      (fuel : ℕ) (op : Json) (key : Option String) (w : W)
      → posts (submit_and_wait gateway texts q fuel op key w).1 ≤ suc (posts w)
  unfolding submit_and_wait
  submit_adds fuel op key w =
      bind-Keeps {P = λ w'. posts w' ≤ suc (posts w)} _ _ w (request_adds "POST" "/v1/ops" _ w)
        (answered-Keeps counts texts q (suc (posts w)) fuel)

  -- A write that ends by a value once it is submitted.
  submit_then_adds {κ} :
      {A : Type κ} (a : A) (fuel : ℕ) (op : Json) (key : Option String) (w : W)
      → posts ((submit_and_wait gateway texts q fuel op key >> pure a) w).1 ≤ suc (posts w)
  submit_then_adds a fuel op key w =
      then-Keeps {P = λ w'. posts w' ≤ suc (posts w)} _ _ w (submit_adds fuel op key w)
        (Keeps-pure a)

  bind_adds {κ μ} :
      {A : Type κ} {B : Type μ} (m : Exec W A) (f : A → Exec W B) (w : W)
      → Keeps (λ w'. posts w' ≤ posts w) m
      → ((a : A) (w' : W) → posts (f a w').1 ≤ suc (posts w'))
      → posts ((m >>= f) w).1 ≤ suc (posts w)
  unfolding ◌>>=◌
  bind_adds m f w km h = continue_adds (m w).0 f (m w).1 (posts w) (km.at w (omega arith)) h

  create_adds :
      (fuel : ℕ) (v : Json) (tag : String) (key : Option String) (w : W)
      → posts (create gateway texts q fuel v tag key w).1 ≤ suc (posts w)
  unfolding create
  create_adds fuel v tag key w =
      bind_adds (create_attributes texts v tag) _ w
        (create_attributes-Keeps texts (λ w'. posts w' ≤ posts w) v tag)
        (λ attrs. submit_then_adds tt fuel _ key)

  -- However long a write waits for the queue, and whatever the queue answers, the write is submitted at
  -- most once: of the requests that it opens one at most is a POST, the others only ask.
  pub submitted_once :
      (fuel : ℕ) (x : Writing) (w : W)
      → posts (submitted gateway texts q fuel x w).1 ≤ suc (posts w)
  unfolding set_terminal set_tags set_tags_and_terminal
  submitted_once fuel (creating v tag key) w =
      then-Keeps {P = λ w'. posts w' ≤ suc (posts w)} _ _ w (create_adds fuel v tag key w)
        (Keeps-pure true)
  submitted_once fuel (ending u x) w = submit_then_adds true fuel _ _ w
  submitted_once fuel (tagging u gs) w = submit_then_adds true fuel _ _ w
  submitted_once fuel (tagging_and_ending u gs x) w = submit_then_adds true fuel _ _ w
