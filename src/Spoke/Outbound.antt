-- ===== src/Spoke/Outbound.antt =====
-- The outbound phase of spoke/core.py. `lower` is Python's `str.lower`; the reader's candidates and the
-- hub are arguments.
pub mod Once
pub mod Fate
pub mod Envelope
use things_team.Base.{
  ℕ, suc, zero, String, Bool, true, false, not, Option, none, some, List, ◌∷◌, [], ◌==◌, ltb,
  str_eq, if◌then◌else◌,
}
use things_team.Base.Table.{find, any, select}
use things_team.Base.Table.Queries.{length}
use things_team.Json.{Json, Items, nil, cons, null, text, arr, obj, end, field}
use things_team.Hub.Schema.{RowId, Time}
use things_team.Hub.Ack.{clip}
use things_team.Spoke.State.{SpokeState, known_sent, mark_sent}

-- A candidate, as the reader's `_snapshot` makes it.
pub record Candidate : Type 0 where
  pub uuid : String
  pub title : Option String
  pub notes : Option String
  pub checklist : List String
  pub tags : List String
  pub when_date : Option String
  pub deadline : Option String
  pub is_repeating : Bool
  pub kind : ℕ

-- `MAX_CHECKLIST` and `MAX_NOTES`
abbrev pub max_checklist : ℕ
max_checklist = 100

abbrev pub max_notes : ℕ
max_notes = 10000

pub data Refusal : Type 0 where
  repeating long_checklist not_a_todo : Refusal

-- `_refusal`, `none` for the empty text
unfoldable pub refusal : Candidate → Option Refusal
refusal c =
    if c.is_repeating
    then some repeating
    else if ltb max_checklist (length c.checklist)
    then some long_checklist
    else if not (c.kind == 0)
    then some not_a_todo
    else none

-- `xs[:n]`, each as a JSON text
unfoldable pub clip_items : ℕ → List String → Items
clip_items zero xs = nil
clip_items (suc n) [] = nil
clip_items (suc n) (x ∷ xs) = cons (text x) (clip_items n xs)

-- `v or ""`
abbrev pub or_empty : Option String → String
or_empty none = ""
or_empty (some s) = s

abbrev pub or_null : Option String → Json
or_null none = null
or_null (some s) = text s

unfoldable pub envelope : Candidate → Json
envelope c = obj (
    field "schema" (text "tandem.todo/1") (
      field "title" (text (or_empty c.title)) (
        field "notes" (text (clip max_notes (or_empty c.notes))) (
          field "checklist" (arr (clip_items max_checklist c.checklist)) (
            field "when" (or_null c.when_date)
              (field "deadline" (or_null c.deadline) (field "context_url" null end)))))))

-- A tag in lower case and the handle it sends to.
pub record Trigger : Type 0 where
  pub tag : String
  pub handle : String

-- `all_triggers.get(tag)`: the triggers in reverse, since the last of equal keys stays in the dict.
unfoldable pub handle_of : String → List Trigger → Option String
handle_of tag ts = elim (find (λ t. str_eq t.tag tag) ts) [ none ↦ none | some t ↦ some t.handle ]

-- The handle of the first tag that is a trigger; `matched` is empty where there is none.
unfoldable pub match_tags : (String → String) → List Trigger → List String → Option String
match_tags lower ts [] = none
match_tags lower ts (g ∷ gs) = elim (handle_of (lower g) ts) [
  | none ↦ match_tags lower ts gs
  | some h ↦ some h
]

-- What a spoke needs of the hub here: the state after a push, and the id of the transfer, `none` where
-- the push raised.
abbrev pub PushHub {ℓ} : Type ℓ → Type ℓ
PushHub H = String → String → Json → ℕ → H → Option RowId × H

-- An entry of the configured `trigger_tags`.
pub record Route : Type 0 where
  pub handle : String
  pub tags : List String

-- The dict of `_outbound`, the last entry first; `__init__` has put the tags in lower case.
unfoldable pub add_triggers : (String → String) → String → List String → List Trigger → List Trigger
add_triggers lower handle [] ts = ts
add_triggers lower handle (g ∷ gs) ts =
    add_triggers lower handle gs (record { tag = lower g; handle = handle } ∷ ts)

unfoldable pub all_triggers : (String → String) → List Route → List Trigger → List Trigger
all_triggers lower [] ts = ts
all_triggers lower (r ∷ rs) ts = all_triggers lower rs (add_triggers lower r.handle r.tags ts)

-- `clock c` is the time at which `mark_sent` is called for `c`.
module _ {ℓ} {H : Type ℓ} (lower : String → String) (clock : Candidate → Time)
    (push : PushHub H) where
  abbrev pub pushed : Candidate → SpokeState → Option RowId × H → H × SpokeState
  pushed c st (none, h) = (h, st)
  pushed c st (some i, h) = (h, mark_sent (clock c) c.uuid 1 (some i) st)

  -- One pass through the body of the loop.
  unfoldable pub outbound_one : List Trigger → Candidate → H → SpokeState → H × SpokeState
  outbound_one ts c h st =
      if known_sent c.uuid 1 st then (h, st) else elim (match_tags lower ts c.tags) [
        | none ↦ (h, st)
        | some handle ↦ elim (refusal c) [
          | some r ↦ (h, st)
          | none ↦ pushed c st (push handle c.uuid (envelope c) 1 h)
        ]
      ]

  unfoldable pub outbound_loop : List Trigger → List Candidate → H → SpokeState → H × SpokeState
  outbound_loop ts [] h st = (h, st)
  outbound_loop ts (c ∷ cs) h st =
      let (h', st') = outbound_one ts c h st in outbound_loop ts cs h' st'

  -- Without triggers the reader is not asked.
  unfoldable pub outbound_with : List Trigger → List Candidate → H → SpokeState → H × SpokeState
  outbound_with [] cs h st = (h, st)
  outbound_with (t ∷ ts) cs h st = outbound_loop (t ∷ ts) cs h st

  -- `_outbound`
  unfoldable pub outbound : List Route → List Candidate → H → SpokeState → H × SpokeState
  outbound routes cs h st = outbound_with (all_triggers lower routes []) cs h st
