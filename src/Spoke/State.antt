-- ===== src/Spoke/State.antt =====
-- `SpokeState` of spoke/core.py: what a spoke keeps on its machine. Each method is one transaction
-- under the lock.
pub mod Journal
use things_team.Base.{ℕ, String, Bool, ◌&&◌, Option, none, some, List, ◌∷◌, [], ◌++◌, ◌==◌, str_eq}
use things_team.Base.Table.{find, any, update, delete, join}
use things_team.Hub.Schema.{RowId, Time, Terminal}

pub record Sent : Type 0 where
  pub src_uuid : String
  pub rev : ℕ
  pub transfer_id : Option RowId
  pub pushed_at : Time

pub record JournalEntry : Type 0 where
  pub delivery_id : RowId
  pub transfer_id : RowId
  pub title : String
  pub provenance_tag : String
  pub fired_at : Time
  pub dst_uuid : Option String

pub record Retag : Type 0 where
  pub transfer_id : RowId
  pub retagged_at : Time

pub record Observed : Type 0 where
  pub transfer_id : RowId
  pub state : Terminal
  pub observed_at : Time

pub record SpokeState : Type 0 where
  pub sent_cache : List Sent
  pub journal : List JournalEntry
  pub retagged : List Retag
  pub observed : List Observed

-- `INSERT OR REPLACE`: the row with the same key goes.
unfoldable pub replace {ℓ} : {A : Type ℓ} → (A → Bool) → A → List A → List A
replace same_key x xs = delete same_key xs ++ x ∷ []

abbrev pub is_sent : String → ℕ → Sent → Bool
is_sent src_uuid rev s = str_eq s.src_uuid src_uuid && s.rev == rev

unfoldable pub known_sent : String → ℕ → SpokeState → Bool
known_sent src_uuid rev st = any (is_sent src_uuid rev) st.sent_cache

unfoldable pub mark_sent : Time → String → ℕ → Option RowId → SpokeState → SpokeState
mark_sent now src_uuid rev transfer_id st = record st {
  sent_cache =
      replace (is_sent src_uuid rev)
        (record { src_uuid = src_uuid; rev = rev; transfer_id = transfer_id; pushed_at = now })
        st.sent_cache;
}

unfoldable pub journal_open : RowId → SpokeState → Option JournalEntry
journal_open delivery_id st = find (λ j. j.delivery_id == delivery_id) st.journal

-- The row of an intent; `dst_uuid` is left out, so it is NULL.
abbrev pub intent : Time → RowId → RowId → String → String → JournalEntry
intent now delivery_id transfer_id title provenance_tag = record {
  delivery_id = delivery_id;
  transfer_id = transfer_id;
  title = title;
  provenance_tag = provenance_tag;
  fired_at = now;
  dst_uuid = none;
}

unfoldable pub journal_intent : Time → RowId → RowId → String → String → SpokeState → SpokeState
journal_intent now delivery_id transfer_id title provenance_tag st = record st {
  journal =
      replace (λ (j : JournalEntry). j.delivery_id == delivery_id)
        (intent now delivery_id transfer_id title provenance_tag) st.journal;
}

abbrev pub closed : String → JournalEntry → JournalEntry
closed dst_uuid j = record j { dst_uuid = some dst_uuid }

unfoldable pub journal_close : RowId → String → SpokeState → SpokeState
journal_close delivery_id dst_uuid st = record st {
  journal =
      update (λ (j : JournalEntry). j.delivery_id == delivery_id) (closed dst_uuid) st.journal;
}

-- The set, as a list of its members.
unfoldable pub journaled_dst_uuids : SpokeState → List String
journaled_dst_uuids st = join (λ (j : JournalEntry). j.dst_uuid) st.journal

unfoldable pub is_retagged : RowId → SpokeState → Bool
is_retagged transfer_id st = any (λ (r : Retag). r.transfer_id == transfer_id) st.retagged

unfoldable pub mark_retagged : Time → RowId → SpokeState → SpokeState
mark_retagged now transfer_id st = record st {
  retagged =
      replace (λ (r : Retag). r.transfer_id == transfer_id)
        (record { transfer_id = transfer_id; retagged_at = now }) st.retagged;
}

unfoldable pub last_observed : RowId → SpokeState → Option Terminal
last_observed transfer_id st = elim (find (λ o. o.transfer_id == transfer_id) st.observed) [
  | none ↦ none
  | some o ↦ some o.state
]

unfoldable pub mark_observed : Time → RowId → Terminal → SpokeState → SpokeState
mark_observed now transfer_id state st = record st {
  observed =
      replace (λ (o : Observed). o.transfer_id == transfer_id)
        (record { transfer_id = transfer_id; state = state; observed_at = now }) st.observed;
}

-- The methods that write.
pub data Write : Type 0 where
  sent : Time → String → ℕ → Option RowId → Write
  intended : Time → RowId → RowId → String → String → Write
  closing : RowId → String → Write
  retag : Time → RowId → Write
  observation : Time → RowId → Terminal → Write

unfoldable pub write : Write → SpokeState → SpokeState
write (sent now u rev t) st = mark_sent now u rev t st
write (intended now i t title tag) st = journal_intent now i t title tag st
write (closing i dst) st = journal_close i dst st
write (retag now t) st = mark_retagged now t st
write (observation now t x) st = mark_observed now t x st

unfoldable pub write_all : List Write → SpokeState → SpokeState
write_all [] st = st
write_all (w ∷ ws) st = write_all ws (write w st)
