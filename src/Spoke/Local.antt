-- ===== src/Spoke/Local.antt =====
-- The writer of spoke/writer_local.py, which opens each write in the Things application of this Mac,
-- gives the focus back that Things takes, and reads updates back from the mirror.
pub mod Checked
pub mod Passes
pub mod Ends
pub mod Front
mod Tests
use Prim.Native.String
use things_team.Base.{
  ℕ, ◌+◌, ◌-◌, String, Bool, true, false, not, ◌&&◌, Option, none, some, List, [], ◌∷◌, str_eq, ltb,
  leb, if◌then◌else◌,
}
use things_team.Base.Table.{any}
use things_team.Json.{Json, bool, arr, Items, nil, cons, Fields, end, field}
use things_team.Json.Access.{Texts}
use things_team.Exec.{
  Exec, Outcome, outcome, finished, pure, raise, branch, on_option, attempt, ◌>>=◌, ◌>>◌,
}
use things_team.Exec.Until.{loop_until}
use things_team.Hub.Schema.{Time, Terminal, completed, canceled}
use things_team.Hub.Rows.{has_text}
use things_team.Spoke.World.{
  Op, Clock, Reader, Status, TaskStatus, open_task, completed_task, canceled_task,
}
use things_team.Spoke.Call.{call, clock_time, clock_sleep}
use things_team.Spoke.Queue.{
  attribute_of, texts_of, create_operation, update_operation, create_attributes,
}
use things_team.Spoke.Focus.{
  things_front_name, split_quotes, fourth, is_front, inner, remember, good_front, stolen_at,
  read_front, frontmost_name, activate_app, time_now, residue, capture, restore, settle_test,
  settle_rest, settle_loop, settle_and_watch, Opened, opened, exited, timed_out, broken, Mac,
  LocalSettings, LocalWriter,
}

-- `(reader.status(uuid) or {}).get("status") == want`
abbrev pub is_state : Terminal → TaskStatus → Bool
is_state completed completed_task = true
is_state canceled canceled_task = true
is_state _ _ = false

abbrev pub shows : Terminal → Option Status → Bool
shows x none = false
shows x (some s) = is_state x s.status

abbrev pub within : List String → List String → Bool
within [] ys = true
within (x ∷ xs) ys = any (str_eq x) ys && within xs ys

-- `set(xs) == set(ys)`
abbrev pub same_set : List String → List String → Bool
same_set xs ys = within xs ys && within ys xs

abbrev pub or_no_tags : Option (List String) → List String
or_no_tags none = []
or_no_tags (some gs) = gs

module _ {ℓ} {W : Type ℓ} (mac : Mac W) (texts : Texts) (c : LocalSettings) where
  -- The URL that is opened
  unfoldable pub things_url : String → Json → String
  things_url token operations =
      String.◌++◌ "things:///json?auth-token="
        (String.◌++◌ (c.quote token) (String.◌++◌ "&data=" (c.quote (c.dumps operations))))

  unfoldable pub run_open : String → Exec W Opened
  run_open url w = let (r, w') = mac.open_url url w in (finished r, w')

  unfoldable pub after_open : ℕ → Bool → Option String → Opened → Exec (LocalWriter W) (Unit {0})
  after_open fuel watch restore_to opened = settle_and_watch mac texts c fuel watch restore_to
  after_open fuel watch restore_to (exited n) = raise (c.exit_text n)
  after_open fuel watch restore_to timed_out = raise c.timeout_text
  after_open fuel watch restore_to (broken e) = raise e

  unfoldable pub open_watched : ℕ → Json → Bool × Option String → Exec (LocalWriter W) (Unit {0})
  open_watched fuel operations (watch, restore_to) = do
    token ← inner (call mac.token)
    result ← inner (run_open (things_url token operations))
    after_open fuel watch restore_to result

  -- `_open_json`
  unfoldable pub open_json : ℕ → Json → Exec (LocalWriter W) (Unit {0})
  open_json fuel operations = capture mac texts c >>= open_watched fuel operations

  -- A round of the loop of `_verify`: the refresh may raise, and an exception of the check is dropped.
  unfoldable pub verify_test :
      Exec (LocalWriter W) Bool → Unit {0} → Exec (LocalWriter W) (Option Bool)
  verify_test check u = do
    inner (call mac.reader.refresh)
    attempt (check >>= λ b. pure (if b then some true else none)) (λ e. pure none)

  unfoldable pub verify_rest : ℕ → Unit {0} → Exec (LocalWriter W) (Unit {0})
  verify_rest now u = inner (clock_sleep mac.clock c.verify_interval)

  unfoldable pub verify_loop : ℕ → Exec (LocalWriter W) Bool → Time → Exec (LocalWriter W) Bool
  verify_loop fuel check deadline =
      loop_until (time_now mac texts c) deadline (λ u. pure false) (verify_test check) verify_rest
        fuel tt

  -- `_verify`
  unfoldable pub verify : ℕ → Exec (LocalWriter W) Bool → Exec (LocalWriter W) Bool
  verify fuel check = do now ← time_now mac texts c; verify_loop fuel check (now + c.verify_timeout)

  -- The checks of the updates
  unfoldable pub check_state : String → Terminal → Exec (LocalWriter W) Bool
  check_state u x = inner (call (mac.reader.status u)) >>= λ s. pure (shows x s)

  unfoldable pub check_tags : String → List String → Exec (LocalWriter W) Bool
  check_tags u tags =
      inner (call (mac.reader.tags_of u)) >>= λ o. pure (same_set (or_no_tags o) tags)

  unfoldable pub check_both : String → List String → Terminal → Exec (LocalWriter W) Bool
  check_both u tags x = check_tags u tags >>= λ b. branch b (check_state u x) (pure false)

  abbrev pub one : Json → Json
  one v = arr (cons v nil)

  -- `create`: the idempotency key is not used.
  unfoldable pub create : ℕ → Json → String → Exec (LocalWriter W) (Unit {0})
  create fuel envelope tag = do
    attrs ← create_attributes texts envelope tag
    open_json fuel (one (create_operation attrs))

  unfoldable pub set_terminal : ℕ → String → Terminal → Exec (LocalWriter W) Bool
  set_terminal fuel u x = do
    open_json fuel (one (update_operation u (field (attribute_of x) (bool true) end)))
    verify fuel (check_state u x)

  unfoldable pub set_tags : ℕ → String → List String → Exec (LocalWriter W) Bool
  set_tags fuel u tags = do
    open_json fuel (one (update_operation u (field "tags" (arr (texts_of tags)) end)))
    verify fuel (check_tags u tags)

  unfoldable pub set_tags_and_terminal :
      ℕ → String → List String → Terminal → Exec (LocalWriter W) Bool
  set_tags_and_terminal fuel u tags x = do
    open_json fuel (
        one (
          update_operation u
            (field "tags" (arr (texts_of tags)) (field (attribute_of x) (bool true) end))))
    verify fuel (check_both u tags x)
