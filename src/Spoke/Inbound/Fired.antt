-- ===== src/Spoke/Inbound/Fired.antt =====
-- The writer's `create` is called once at most for a delivery.
use things_team.Base.{
  ◌≡◌, refl, sym, ap, subst, ℕ, zero, suc, ◌+◌, ◌≤◌, String, Option, none, some, List, ◌∷◌, [],
  arith, inl, inr, ◌==◌, if◌then◌else◌, Option-cases,
}
use things_team.Base.Table.Laws.{find-update}
use things_team.Json.{Json}
use things_team.Exec.{Exec, raise, on_option, ◌>>=◌, ◌>>◌}
use things_team.Exec.Keeps.{Keeps, then-Keeps, Keeps-then, Keeps-branch, Keeps-bind, keeps_rules}
use things_team.Hub.Schema.{RowId, Time, Terminal, Kind, create, complete, cancel}
use things_team.Hub.Rows.{is_null}
use things_team.Hub.Lease.{Entry, Body, payload, uuid}
use things_team.Spoke.State.{
  SpokeState, journal_open, journal_intent, intent, journal_close, JournalEntry, closed,
}
use things_team.Spoke.State.Journal.{find-replace}
use things_team.Spoke.World.{Op, World, Spoke, ask, time_of, pause, recall, note}
use things_team.Spoke.Inbound.{
  Settings, correlate_round, correlate_loop, correlate, settle, fire, titled, title_of, resume,
  begin, apply_payload, apply_create, apply_terminal, apply_kind, apply_one, apply_all, inbound,
}

-- How often `create` was called with a key, and what the calls do to it.
pub record Tally {ℓ} {W : Type ℓ} (world : World W) : Type ℓ where
  pub fired : W → RowId → ℕ
  pub create_counts :
      (j : Json) (tag : String) (i : RowId) (w : W) (k : RowId)
      → fired (world.writer.create j tag i w).1 k ≡ fired w k + (if i == k then 1 else 0)
  pub refresh_quiet : (w : W) (k : RowId) → fired (world.reader.refresh w).1 k ≡ fired w k
  pub candidates_quiet :
      (ts : List String) (w : W) (k : RowId)
      → fired (world.reader.outbound_candidates ts w).1 k ≡ fired w k
  pub status_quiet :
      (u : String) (w : W) (k : RowId) → fired (world.reader.status u w).1 k ≡ fired w k
  pub correlate_quiet :
      (t : String) (s : Time) (g : String) (us : List String) (w : W) (k : RowId)
      → fired (world.reader.correlate t s g us w).1 k ≡ fired w k
  pub tags_quiet :
      (u : String) (w : W) (k : RowId) → fired (world.reader.tags_of u w).1 k ≡ fired w k
  pub terminal_quiet :
      (u : String) (x : Terminal) (w : W) (k : RowId)
      → fired (world.writer.set_terminal u x w).1 k ≡ fired w k
  pub retag_quiet :
      (u : String) (gs : List String) (x : Terminal) (w : W) (k : RowId)
      → fired (world.writer.set_tags_and_terminal u gs x w).1 k ≡ fired w k
  pub push_quiet :
      (to u : String) (j : Json) (rev : ℕ) (w : W) (k : RowId)
      → fired (world.hub.push_transfer to u j rev w).1 k ≡ fired w k
  pub deliveries_quiet :
      (n : ℕ) (w : W) (k : RowId) → fired (world.hub.deliveries n w).1 k ≡ fired w k
  pub ack_quiet :
      (i : RowId) (o : Option String) (w : W) (k : RowId)
      → fired (world.hub.ack i o w).1 k ≡ fired w k
  pub nack_quiet :
      (i : RowId) (e : String) (w : W) (k : RowId) → fired (world.hub.nack i e w).1 k ≡ fired w k
  pub watch_quiet : (w : W) (k : RowId) → fired (world.hub.watch w).1 k ≡ fired w k
  pub observe_quiet :
      (i : RowId) (x : Terminal) (w : W) (k : RowId)
      → fired (world.hub.observe i x w).1 k ≡ fired w k
  pub now_quiet : (w : W) (k : RowId) → fired (world.clock.now w).1 k ≡ fired w k
  pub sleep_quiet : (t : Time) (w : W) (k : RowId) → fired (world.clock.sleep t w) k ≡ fired w k

closed-is_null :
    (k i : RowId) (u : String) (m : SpokeState)
    → is_null (journal_open k (journal_close i u m)) ≡ is_null (journal_open k m)
unfolding journal_open journal_close
closed-is_null k i u m = ground (
  arith,
  find-update (λ (j : JournalEntry). j.delivery_id == k) (λ (j : JournalEntry). j.delivery_id == i)
      (closed u) m.journal (λ j. refl),
)

module _ {ℓ} {W : Type ℓ} {world : World W} (tally : Tally world) where
  -- Without a journal entry nothing was fired, and with one at most one `create`.
  unfoldable pub FiredOnce : Spoke W → Type 0
  FiredOnce s =
      (k : RowId) → tally.fired s.world k ≤ (if is_null (journal_open k s.memory) then 0 else 1)

  -- A write to the spoke's state that keeps every journal entry.
  abbrev pub KeepsEntries : (SpokeState → SpokeState) → Type 0
  KeepsEntries f =
      (k : RowId) (m : SpokeState) → is_null (journal_open k (f m)) ≡ is_null (journal_open k m)

  pub ask-FiredOnce {κ} :
      {A : Type κ} (op : Op W A)
      → ((w : W) (k : RowId) → tally.fired (op w).1 k ≡ tally.fired w k)
      → Keeps FiredOnce (ask op)
  unfolding FiredOnce ask
  ask-FiredOnce op q = record { at = λ s h k. rw (q s.world k) (h k) }

  pub time_of-FiredOnce : Keeps FiredOnce (time_of world.clock.now)
  unfolding FiredOnce time_of
  time_of-FiredOnce = record { at = λ s h k. rw (tally.now_quiet s.world k) (h k) }

  pub pause-FiredOnce : (t : Time) → Keeps FiredOnce (pause (world.clock.sleep t))
  unfolding FiredOnce pause
  pause-FiredOnce t = record { at = λ s h k. rw (tally.sleep_quiet t s.world k) (h k) }

  pub recall-FiredOnce {κ} : {A : Type κ} (f : SpokeState → A) → Keeps FiredOnce (recall f)
  unfolding FiredOnce recall
  recall-FiredOnce f = record { at = λ s h k. h k }

  pub note-FiredOnce : (f : SpokeState → SpokeState) → KeepsEntries f → Keeps FiredOnce (note f)
  unfolding FiredOnce note
  note-FiredOnce f keep = record { at = λ s h k. rw (keep k s.memory) (h k) }

  closes-KeepsEntries : (i : RowId) (u : String) → KeepsEntries (journal_close i u)
  closes-KeepsEntries i u k m = closed-is_null k i u m

  pub refresh-FiredOnce : Keeps FiredOnce (ask world.reader.refresh)
  refresh-FiredOnce = ask-FiredOnce world.reader.refresh tally.refresh_quiet

  pub candidates-FiredOnce :
      (ts : List String) → Keeps FiredOnce (ask (world.reader.outbound_candidates ts))
  candidates-FiredOnce ts =
      ask-FiredOnce (world.reader.outbound_candidates ts) (tally.candidates_quiet ts)

  pub status-FiredOnce : (u : String) → Keeps FiredOnce (ask (world.reader.status u))
  status-FiredOnce u = ask-FiredOnce (world.reader.status u) (tally.status_quiet u)

  pub correlate-FiredOnce :
      (t : String) (s : Time) (g : String) (us : List String)
      → Keeps FiredOnce (ask (world.reader.correlate t s g us))
  correlate-FiredOnce t s g us =
      ask-FiredOnce (world.reader.correlate t s g us) (tally.correlate_quiet t s g us)

  pub tags_of-FiredOnce : (u : String) → Keeps FiredOnce (ask (world.reader.tags_of u))
  tags_of-FiredOnce u = ask-FiredOnce (world.reader.tags_of u) (tally.tags_quiet u)

  pub set_terminal-FiredOnce :
      (u : String) (x : Terminal) → Keeps FiredOnce (ask (world.writer.set_terminal u x))
  set_terminal-FiredOnce u x =
      ask-FiredOnce (world.writer.set_terminal u x) (tally.terminal_quiet u x)

  pub set_tags-FiredOnce :
      (u : String) (gs : List String) (x : Terminal)
      → Keeps FiredOnce (ask (world.writer.set_tags_and_terminal u gs x))
  set_tags-FiredOnce u gs x =
      ask-FiredOnce (world.writer.set_tags_and_terminal u gs x) (tally.retag_quiet u gs x)

  pub deliveries-FiredOnce : (n : ℕ) → Keeps FiredOnce (ask (world.hub.deliveries n))
  deliveries-FiredOnce n = ask-FiredOnce (world.hub.deliveries n) (tally.deliveries_quiet n)

  pub ack-FiredOnce : (i : RowId) (o : Option String) → Keeps FiredOnce (ask (world.hub.ack i o))
  ack-FiredOnce i o = ask-FiredOnce (world.hub.ack i o) (tally.ack_quiet i o)

  pub nack-FiredOnce : (i : RowId) (e : String) → Keeps FiredOnce (ask (world.hub.nack i e))
  nack-FiredOnce i e = ask-FiredOnce (world.hub.nack i e) (tally.nack_quiet i e)

  pub watch-FiredOnce : Keeps FiredOnce (ask world.hub.watch)
  watch-FiredOnce = ask-FiredOnce world.hub.watch tally.watch_quiet

  pub observe-FiredOnce : (i : RowId) (x : Terminal) → Keeps FiredOnce (ask (world.hub.observe i x))
  observe-FiredOnce i x = ask-FiredOnce (world.hub.observe i x) (tally.observe_quiet i x)

  pub close-FiredOnce : (i : RowId) (u : String) → Keeps FiredOnce (note (journal_close i u))
  close-FiredOnce i u = note-FiredOnce (journal_close i u) (closes-KeepsEntries i u)

  pub ruleset quiet_rules = (
    keeps_rules, time_of-FiredOnce, pause-FiredOnce, recall-FiredOnce, close-FiredOnce,
    refresh-FiredOnce, candidates-FiredOnce, status-FiredOnce, correlate-FiredOnce,
    tags_of-FiredOnce, set_terminal-FiredOnce, set_tags-FiredOnce, deliveries-FiredOnce,
    ack-FiredOnce, nack-FiredOnce, watch-FiredOnce, observe-FiredOnce,
  )

  correlate_round-FiredOnce :
      (c : Settings) (title : String) (start : Time) (tag : String) (us : List String)
      (deadline : Time) (next : Exec (Spoke W) (Option String))
      → Keeps FiredOnce next
      → Keeps FiredOnce (correlate_round world c title start tag us deadline next)
  unfolding correlate_round
  correlate_round-FiredOnce c title start tag us deadline next h =
      Keeps-then _ _ (search quiet_rules) (
        Keeps-bind _ _ (search quiet_rules) (λ o. Keeps-branch _ _ _ (search quiet_rules) (
          Keeps-bind _ _ (search quiet_rules) (λ t.
            Keeps-branch _ _ _ (search quiet_rules) (Keeps-then _ _ (search quiet_rules) h)))))

  correlate_loop-FiredOnce :
      (c : Settings) (fuel : ℕ) (title : String) (start : Time) (tag : String) (us : List String)
      (deadline : Time)
      → Keeps FiredOnce (correlate_loop world c fuel title start tag us deadline)
  unfolding correlate_loop
  correlate_loop-FiredOnce c zero title start tag us deadline = search quiet_rules
  correlate_loop-FiredOnce c (suc fuel) title start tag us deadline =
      correlate_round-FiredOnce c title start tag us deadline _
        (correlate_loop-FiredOnce c fuel title start tag us deadline)

  settle-FiredOnce :
      (c : Settings) (fuel : ℕ) (d : Entry) (title : String) (t0 : Time) (tag : String)
      → Keeps FiredOnce (settle world c fuel d title t0 tag)
  unfolding settle correlate
  settle-FiredOnce c fuel d title t0 tag = search (quiet_rules, correlate_loop-FiredOnce)

  -- Where the delivery has no entry, nothing was fired for it, and now one `create` is.
  fire-fires :
      (c : Settings) (d : Entry) (title : String) (j : Json) (tag : String) (s : Spoke W)
      → FiredOnce s
      → journal_open d.id s.memory ≡ none
      → FiredOnce (fire world c d title j tag s).1
  unfolding FiredOnce fire ◌>>=◌ ◌>>◌ ask note time_of journal_open journal_intent
  fire-fires c d title j tag s h new k =
      let t = (world.clock.now s.world).0 in
      ground (
        arith,
        h k,
        tally.create_counts j tag d.id (world.clock.now s.world).1 k,
        tally.now_quiet s.world k,
        find-replace k d.id (intent t d.id d.transfer_id title tag) s.memory.journal refl,
      )

  begin-FiredOnce :
      (c : Settings) (fuel : ℕ) (d : Entry) (j : Json) (tag : String) (t0 : Time) (s : Spoke W)
      → FiredOnce s
      → journal_open d.id s.memory ≡ none
      → FiredOnce (begin world c fuel d j tag t0 s).1
  unfolding begin titled raise on_option
  begin-FiredOnce c fuel d j tag t0 s h new = elim (Option-cases (title_of j)) [
    | inl untitled ↦ rw untitled h
    | inr (title, e) ↦ rw e (
        then-Keeps _ _ s (fire-fires c d title j tag s h new)
          (settle-FiredOnce c fuel d title t0 tag))
  ]

  resume-FiredOnce :
      (c : Settings) (fuel : ℕ) (d : Entry) (j : Json) (tag : String) (e : JournalEntry)
      → Keeps FiredOnce (resume world c fuel d j tag e)
  unfolding resume titled
  resume-FiredOnce c fuel d j tag e = search (quiet_rules, settle-FiredOnce)

  clocked :
      (s : Spoke W) → FiredOnce s → FiredOnce (record s { world = (world.clock.now s.world).1 })
  unfolding time_of
  clocked s h = time_of-FiredOnce.at s h

  -- The two ways of an apply, by the journal entry.
  apply_new :
      (c : Settings) (fuel : ℕ) (d : Entry) (j : Json) (tag : String) (s : Spoke W)
      → journal_open d.id s.memory ≡ none
      → let (t0, s') = (world.clock.now s.world) in
        apply_payload world c fuel d j tag s
        ≡ begin world c fuel d j tag t0 (record s { world = s' })
  unfolding apply_payload ◌>>=◌ recall time_of on_option
  apply_new c fuel d j tag s e = rw e refl

  apply_old :
      (c : Settings) (fuel : ℕ) (d : Entry) (j : Json) (tag : String) (s : Spoke W)
      {e : JournalEntry}
      → journal_open d.id s.memory ≡ some e
      → apply_payload world c fuel d j tag s
        ≡ resume world c fuel d j tag e (record s { world = (world.clock.now s.world).1 })
  unfolding apply_payload ◌>>=◌ recall time_of on_option
  apply_old c fuel d j tag s e = rw e refl

  apply_payload-FiredOnce :
      (c : Settings) (fuel : ℕ) (d : Entry) (j : Json) (tag : String)
      → Keeps FiredOnce (apply_payload world c fuel d j tag)
  apply_payload-FiredOnce c fuel d j tag = record {
    at = λ s h. elim (Option-cases (journal_open d.id s.memory)) [
      | inl new ↦ subst FiredOnce (sym (ap (λ x. x.1) (apply_new c fuel d j tag s new))) (
          begin-FiredOnce c fuel d j tag _ (record s { world = (world.clock.now s.world).1 })
            (clocked s h) new)
      | inr (e, old) ↦
          subst FiredOnce (sym (ap (λ x. x.1) (apply_old c fuel d j tag s old)))
            ((resume-FiredOnce c fuel d j tag e).at _ (clocked s h))
    ];
  }

  apply_create-FiredOnce :
      (c : Settings) (fuel : ℕ) (d : Entry) (b : Body)
      → Keeps FiredOnce (apply_create world c fuel d b)
  unfolding apply_create
  apply_create-FiredOnce c fuel d (payload j from tag) = apply_payload-FiredOnce c fuel d j tag
  apply_create-FiredOnce c fuel d (uuid u) = search quiet_rules

  apply_terminal-FiredOnce :
      (c : Settings) (d : Entry) (b : Body) → Keeps FiredOnce (apply_terminal world c d b)
  unfolding apply_terminal
  apply_terminal-FiredOnce c d (payload j from tag) = search quiet_rules
  apply_terminal-FiredOnce c d (uuid u) = search quiet_rules

  apply_kind-FiredOnce :
      (c : Settings) (fuel : ℕ) (k : Kind) (d : Entry)
      → Keeps FiredOnce (apply_kind world c fuel k d)
  unfolding apply_kind
  apply_kind-FiredOnce c fuel create d = apply_create-FiredOnce c fuel d d.body
  apply_kind-FiredOnce c fuel complete d = apply_terminal-FiredOnce c d d.body
  apply_kind-FiredOnce c fuel cancel d = apply_terminal-FiredOnce c d d.body

  apply_one-FiredOnce :
      (c : Settings) (fuel : ℕ) (d : Entry) → Keeps FiredOnce (apply_one world c fuel d)
  unfolding apply_one
  apply_one-FiredOnce c fuel d = search (quiet_rules, apply_kind-FiredOnce)

  apply_all-FiredOnce :
      (c : Settings) (fuel : ℕ) (ds : List Entry) → Keeps FiredOnce (apply_all world c fuel ds)
  unfolding apply_all
  apply_all-FiredOnce c fuel [] = search quiet_rules
  apply_all-FiredOnce c fuel (d ∷ ds) =
      Keeps-then _ _ (apply_one-FiredOnce c fuel d) (apply_all-FiredOnce c fuel ds)

  pub inbound-FiredOnce : (c : Settings) (fuel : ℕ) → Keeps FiredOnce (inbound world c fuel)
  unfolding inbound
  inbound-FiredOnce c fuel = search (quiet_rules, apply_all-FiredOnce)
