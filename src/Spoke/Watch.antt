-- ===== src/Spoke/Watch.antt =====
-- The phases of spoke/core.py that watch the local copies, `_observe_and_retag` and `_retag_sender_copy`,
-- and the ticks.
use things_team.Base.{
  String, Bool, true, false, not, ◌&&◌, Option, none, some, List, ◌∷◌, [], ◌++◌, str_eq,
  if◌then◌else◌,
}
use things_team.Base.Table.{any, select}
use things_team.Exec.{Exec, pure, branch, on_option, attempt, ◌>>=◌, ◌>>◌}
use things_team.Hub.Schema.{RowId, Terminal, completed, canceled}
use things_team.Hub.Rows.{eq_terminal}
use things_team.Hub.Observe.{Role, sender, recipient, Progress, Watch, applied, created}
use things_team.Spoke.State.{is_retagged, mark_retagged, last_observed, mark_observed}
use things_team.Spoke.Outbound.{Route, Trigger, all_triggers}
use things_team.Spoke.World.{
  TaskStatus, open_task, completed_task, canceled_task, Status, World, Spoke, ask, time_of, recall,
  note,
}
use things_team.Spoke.Inbound.{ignore}

-- `DELEGATED_TAG`
abbrev pub delegated_tag : String
delegated_tag = "👉 delegated"

abbrev pub terminal_of_task : TaskStatus → Option Terminal
terminal_of_task open_task = none
terminal_of_task completed_task = some completed
terminal_of_task canceled_task = some canceled

-- The terminal state that a copy shows: a copy in the trash counts as canceled.
abbrev pub terminal_shown : Status → Option Terminal
terminal_shown s = if s.trashed then some canceled else terminal_of_task s.status

abbrev pub is_terminal : Terminal → Option Terminal → Bool
is_terminal x none = false
is_terminal x (some y) = eq_terminal x y

abbrev pub is_sender : Role → Bool
is_sender sender = true
is_sender recipient = false

abbrev pub is_applied : Progress → Bool
is_applied applied = true
is_applied created = false

-- `new_tags`: the tags that are no triggers, and the delegated tag.
abbrev pub with_delegated : List String → List String
with_delegated tags = if any (str_eq delegated_tag) tags then tags else tags ++ delegated_tag ∷ []

unfoldable pub retagged_tags : (String → String) → List Trigger → List String → List String
retagged_tags lower ts tags =
    with_delegated (select (λ g. not (any (λ (t : Trigger). str_eq t.tag (lower g)) ts)) tags)

module _ {ℓ} {W : Type ℓ} (world : World W) (lower : String → String) (routes : List Route) where
  -- `_retag_sender_copy`
  unfoldable pub retag_sender_copy : Watch → Exec (Spoke W) (Unit {0})
  retag_sender_copy w = do
    current ← ask (world.reader.tags_of w.uuid)
    on_option current (pure tt) (λ tags. do
      verified ← ask (
          world.writer.set_tags_and_terminal w.uuid
            (retagged_tags lower (all_triggers lower routes []) tags) completed)
      branch (not verified) (pure tt)
          (do now ← time_of world.clock.now; note (mark_retagged now w.transfer_id)))

  -- An exception of the report is dropped, and nothing is marked then.
  unfoldable pub report : RowId → Terminal → Exec (Spoke W) (Unit {0})
  report i x = do
    ask (world.hub.observe i x)
    now ← time_of world.clock.now
    note (mark_observed now i x)

  unfoldable pub retag_if_applied : Watch → Exec (Spoke W) (Unit {0})
  retag_if_applied w = do
    retagged ← recall (is_retagged w.transfer_id)
    branch (is_sender w.role && is_applied w.state && not retagged) (retag_sender_copy w) (pure tt)

  unfoldable pub react : Watch → Option Terminal → Exec (Spoke W) (Unit {0})
  react w none = retag_if_applied w
  react w (some x) = do
    last ← recall (last_observed w.transfer_id)
    branch (is_terminal x last) (retag_if_applied w) (attempt (report w.transfer_id x) ignore)

  -- The body of the loop over the watchlist.
  unfoldable pub watch_one : Watch → Exec (Spoke W) (Unit {0})
  watch_one w = do
    retagged ← recall (is_retagged w.transfer_id)
    branch (is_sender w.role && retagged) (pure tt) (do
      seen ← ask (world.reader.status w.uuid)
      on_option seen (pure tt) (λ s. react w (terminal_shown s)))

  unfoldable pub watch_all : List Watch → Exec (Spoke W) (Unit {0})
  watch_all [] = pure tt
  watch_all (w ∷ ws) = watch_one w >> watch_all ws

  -- `_observe_and_retag`
  unfoldable pub observe_and_retag : Exec (Spoke W) (Unit {0})
  observe_and_retag = do
    polled ← attempt (ask world.hub.watch >>= λ ws. pure (some ws)) (λ e. pure none)
    on_option polled (pure tt) watch_all
