-- ===== src/Spoke/Inbound.antt =====
-- The inbound phase of spoke/core.py: `_inbound`, `_apply_create`, `_correlate` and `_apply_terminal`.
pub mod Fired
pub mod Ends
use things_team.Base.{
  ℕ, zero, suc, ◌+◌, ◌-◌, String, Bool, true, false, Option, none, some, List, ◌∷◌, [], leb, str_eq,
  if◌then◌else◌,
}
use things_team.Json.{Json, Fields, text, obj, end, field}
use things_team.Exec.{Exec, pure, raise, stop, branch, on_option, attempt, ◌>>=◌, ◌>>◌}
use things_team.Hub.Schema.{RowId, Time, completed, Kind, create}
use things_team.Hub.Rows.{has_text}
use things_team.Hub.Lease.{Entry, Body, payload, uuid}
use things_team.Spoke.State.{
  SpokeState, JournalEntry, journal_open, journal_intent, journal_close, journaled_dst_uuids,
}
use things_team.Spoke.World.{World, Spoke, ask, time_of, pause, recall, note}

-- The settings of a `SpokeCore`, the allowance of 120 seconds for clocks that differ, and the texts of
-- its two exceptions, by the title and by the uuid that they name.
pub record Settings : Type 0 where
  pub correlate_timeout : Time
  pub correlate_interval : Time
  pub skew : Time
  pub timeout_text : String → String
  pub unverified_text : String → String

unfoldable pub title_field : Fields → Option String
title_field end = none
title_field (field k (text s) fs) = if str_eq k "title" then some s else title_field fs
title_field (field k _ fs) = if str_eq k "title" then none else title_field fs

-- `payload["title"]`, a text
unfoldable pub title_of : Json → Option String
title_of (obj fs) = title_field fs
title_of _ = none

-- `except Exception: pass`
abbrev pub ignore {ℓ} : {S : Type ℓ} → String → Exec S (Unit {0})
ignore e = pure tt

module _ {ℓ} {W : Type ℓ} (world : World W) (c : Settings) where
  -- One round of the loop of `_correlate`, before `next`.
  unfoldable pub correlate_round :
      String
      → Time
      → String
      → List String
      → Time
      → Exec (Spoke W) (Option String)
      → Exec (Spoke W) (Option String)
  correlate_round title start tag exclude deadline next = do
    ask world.reader.refresh
    found ← ask (world.reader.correlate title start tag exclude)
    branch (has_text found) (pure found) (do
      now ← time_of world.clock.now
      branch (leb deadline now) (pure none)
          (pause (world.clock.sleep c.correlate_interval) >> next))

  -- The rounds of the loop are at most the fuel.
  unfoldable pub correlate_loop :
      ℕ → String → Time → String → List String → Time → Exec (Spoke W) (Option String)
  correlate_loop zero title start tag exclude deadline = stop
  correlate_loop (suc fuel) title start tag exclude deadline =
      correlate_round title start tag exclude deadline
        (correlate_loop fuel title start tag exclude deadline)

  -- `_correlate`
  unfoldable pub correlate : ℕ → String → Time → String → Exec (Spoke W) (Option String)
  correlate fuel title created_after tag = do
    exclude ← recall journaled_dst_uuids
    now ← time_of world.clock.now
    correlate_loop fuel title (created_after - c.skew) tag exclude (now + c.correlate_timeout)

  -- `_apply_create` from the correlation on
  unfoldable pub settle : ℕ → Entry → String → Time → String → Exec (Spoke W) (Unit {0})
  settle fuel d title t0 tag = do
    found ← correlate fuel title t0 tag
    on_option found (raise (c.timeout_text title))
        (λ u. note (journal_close d.id u) >> ask (world.hub.ack d.id (some u)))

  -- The intent is journaled before the write is fired.
  unfoldable pub fire : Entry → String → Json → String → Exec (Spoke W) (Unit {0})
  fire d title envelope tag = do
    now ← time_of world.clock.now
    note (journal_intent now d.id d.transfer_id title tag)
    ask (world.writer.create envelope tag d.id)

  -- `payload["title"]` raises where it is missing.
  unfoldable pub titled : Json → (String → Exec (Spoke W) (Unit {0})) → Exec (Spoke W) (Unit {0})
  titled envelope next = on_option (title_of envelope) (raise "'title'") next

  -- With an open journal entry nothing is fired; with a closed one the ack is sent again.
  unfoldable pub resume : ℕ → Entry → Json → String → JournalEntry → Exec (Spoke W) (Unit {0})
  resume fuel d envelope tag j =
      branch (has_text j.dst_uuid) (ask (world.hub.ack d.id j.dst_uuid))
        (titled envelope (λ title. settle fuel d title j.fired_at tag))

  unfoldable pub begin : ℕ → Entry → Json → String → Time → Exec (Spoke W) (Unit {0})
  begin fuel d envelope tag t0 =
      titled envelope (λ title. fire d title envelope tag >> settle fuel d title t0 tag)

  unfoldable pub apply_payload : ℕ → Entry → Json → String → Exec (Spoke W) (Unit {0})
  apply_payload fuel d envelope tag = do
    journal ← recall (journal_open d.id)
    t0 ← time_of world.clock.now
    on_option journal (begin fuel d envelope tag t0) (resume fuel d envelope tag)

  -- `_apply_create`
  unfoldable pub apply_create : ℕ → Entry → Body → Exec (Spoke W) (Unit {0})
  apply_create fuel d (payload envelope from tag) = apply_payload fuel d envelope tag
  apply_create fuel d (uuid u) = raise "'payload'"

  -- `_apply_terminal`
  unfoldable pub apply_terminal : Entry → Body → Exec (Spoke W) (Unit {0})
  apply_terminal d (payload envelope from tag) = raise "'uuid'"
  apply_terminal d (uuid u) = do
    verified ← ask (world.writer.set_terminal u completed)
    branch verified (ask (world.hub.ack d.id none)) (raise (c.unverified_text u))

  unfoldable pub apply_kind : ℕ → Kind → Entry → Exec (Spoke W) (Unit {0})
  apply_kind fuel create d = apply_create fuel d d.body
  apply_kind fuel _ d = apply_terminal d d.body

  -- The body of the loop: an exception is reported to the hub, and an exception of that report dropped.
  unfoldable pub apply_one : ℕ → Entry → Exec (Spoke W) (Unit {0})
  apply_one fuel d =
      attempt (apply_kind fuel d.kind d) (λ e. attempt (ask (world.hub.nack d.id e)) ignore)

  unfoldable pub apply_all : ℕ → List Entry → Exec (Spoke W) (Unit {0})
  apply_all fuel [] = pure tt
  apply_all fuel (d ∷ ds) = apply_one fuel d >> apply_all fuel ds

  -- `_inbound`: an exception of the poll ends the phase.
  unfoldable pub inbound : ℕ → Exec (Spoke W) (Unit {0})
  inbound fuel = do
    polled ← attempt (ask (world.hub.deliveries 10) >>= λ ds. pure (some ds)) (λ e. pure none)
    on_option polled (pure tt) (apply_all fuel)
