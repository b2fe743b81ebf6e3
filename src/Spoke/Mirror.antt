-- ===== src/Spoke/Mirror.antt =====
-- The reader of spoke/things_db.py, on the rows of the Things database that it reads. `sql_lower` is
-- SQLite's lower(), `lower` Python's str.lower.
pub mod Dates
pub mod Correlate
pub mod Candidates
mod Tests
use Prim.Native.String
use Prim.Native.Nat.{bit_and, ◌/◌, ◌%◌}
use things_team.Base.{
  ℕ, String, Bool, true, false, not, ◌&&◌, ◌||◌, Option, none, some, List, ◌∷◌, [], map, ◌==◌, leb,
  str_eq, if◌then◌else◌,
}
use things_team.Base.Table.{find, any, select, join, order_by}
use things_team.Hub.Schema.{Time}
use things_team.Hub.Accounts.{text_is}
use things_team.Spoke.Outbound.{Candidate, or_empty}
use things_team.Spoke.World.{TaskStatus, open_task, completed_task, canceled_task, Status}

-- TMTask; `recurrence` and `template` say that the column is not NULL.
pub record TaskRow : Type 0 where
  pub uuid : String
  pub title : Option String
  pub notes : Option String
  pub status : ℕ
  pub kind : ℕ
  pub trashed : ℕ
  pub start : ℕ
  pub start_date : Option ℕ
  pub deadline : Option ℕ
  pub creation_date : Time
  pub recurrence : Bool
  pub template : Bool

pub record TagRow : Type 0 where
  pub uuid : String
  pub title : String

-- TMTaskTag
pub record TagLink : Type 0 where
  pub task : String
  pub tag : String

pub record ChecklistRow : Type 0 where
  pub task : String
  pub title : String
  pub index : ℕ

pub record Mirror : Type 0 where
  pub tasks : List TaskRow
  pub tags : List TagRow
  pub links : List TagLink
  pub checklist : List ChecklistRow

abbrev pub digit : ℕ → String
digit n =
    if n == 0
    then "0"
    else if n == 1
    then "1"
    else if n == 2
    then "2"
    else if n == 3
    then "3"
    else if n == 4
    then "4"
    else if n == 5
    then "5"
    else if n == 6
    then "6"
    else if n == 7
    then "7"
    else if n == 8
    then "8"
    else "9"

-- `%02d` below 100, and `%04d` below 10000
unfoldable pub two_digits : ℕ → String
two_digits n = String.◌++◌ (digit (n / 10 % 10)) (digit (n % 10))

unfoldable pub four_digits : ℕ → String
four_digits n = String.◌++◌ (two_digits (n / 100)) (two_digits (n % 100))

-- `printf('%04d-%02d-%02d', year, month, day)`
unfoldable pub iso_date : ℕ → ℕ → ℕ → String
iso_date year month day =
    String.◌++◌ (four_digits year)
      (String.◌++◌ "-" (String.◌++◌ (two_digits month) (String.◌++◌ "-" (two_digits day))))

-- `_thingsdate` of a column: NULL and 0 give NULL. The fields have at most 11, 4 and 5 bits.
unfoldable pub things_date : Option ℕ → Option String
things_date none = none
things_date (some c) =
    if c == 0
    then none
    else some
        (iso_date (bit_and c 134152192 / 65536) (bit_and c 61440 / 4096) (bit_and c 3968 / 128))

-- The titles of the tags of a task: TMTaskTag joined with TMTag
abbrev pub title_of_link : Mirror → TagLink → Option String
title_of_link m l = elim (find (λ g. str_eq g.uuid l.tag) m.tags) [
  | none ↦ none
  | some g ↦ some g.title
]

unfoldable pub tag_titles : String → Mirror → List String
tag_titles u m = join (title_of_link m) (select (λ l. str_eq l.task u) m.links)

-- `WHERE uuid = ?`
abbrev pub find_task : String → Mirror → Option TaskRow
find_task u m = find (λ t. str_eq t.uuid u) m.tasks

abbrev pub when_of : Option String → ℕ → Option String
when_of (some d) start = some d
when_of none start = if start == 2 then some "someday" else none

-- `_snapshot` of a row
unfoldable pub snapshot_row : Mirror → TaskRow → Candidate
snapshot_row m t = record {
  uuid = t.uuid;
  title = some (or_empty t.title);
  notes = some (or_empty t.notes);
  checklist =
      map (λ (c : ChecklistRow). c.title)
        (order_by (λ (c : ChecklistRow). c.index)
          (select (λ (c : ChecklistRow). str_eq c.task t.uuid) m.checklist));
  tags = tag_titles t.uuid m;
  when_date = when_of (things_date t.start_date) t.start;
  deadline = things_date t.deadline;
  is_repeating = t.recurrence || t.template;
  kind = t.kind;
}

-- `_snapshot`: the row is there, since its uuid was read before on the same connection.
unfoldable pub snapshot : Mirror → String → Option Candidate
snapshot m u = elim (find_task u m) [ none ↦ none | some t ↦ some (snapshot_row m t) ]

-- The `WHERE` of the candidates: an open to-do, not in the trash, with a tag among the titles.
abbrev pub is_eligible : (String → String) → List String → Mirror → TaskRow → Bool
is_eligible sql_lower titles m t =
    t.trashed == 0
    && t.status == 0
    && t.kind == 0
    && any (λ g. any (str_eq (sql_lower g)) titles) (tag_titles t.uuid m)

-- `outbound_candidates`; DISTINCT leaves each task once, in an order that SQL does not say, here the table's.
unfoldable pub mirror_candidates :
    (String → String) → (String → String) → List String → Mirror → List Candidate
mirror_candidates sql_lower lower [] m = []
mirror_candidates sql_lower lower (g ∷ gs) m =
    join (snapshot m) (
      map (λ (t : TaskRow). t.uuid) (select (is_eligible sql_lower (map lower (g ∷ gs)) m) m.tasks))

-- `_STATUS_NAMES.get(status, "open")`
abbrev pub status_name : ℕ → TaskStatus
status_name n = if n == 2 then canceled_task else if n == 3 then completed_task else open_task

-- `status`
unfoldable pub mirror_status : String → Mirror → Option Status
mirror_status u m = elim (find_task u m) [
  | none ↦ none
  | some t ↦ some (record { status = status_name t.status; trashed = not (t.trashed == 0) })
]

-- `tags_of`
unfoldable pub mirror_tags_of : String → Mirror → Option (List String)
mirror_tags_of u m = elim (find_task u m) [ none ↦ none | some t ↦ some (tag_titles u m) ]

-- The `WHERE` of `correlate`
abbrev pub is_correlated :
    (String → String) → (String → String) → String → Time → String → Mirror → TaskRow → Bool
is_correlated sql_lower lower title created_after tag m t =
    text_is title t.title
    && leb created_after t.creation_date
    && any (λ g. str_eq (sql_lower g) (lower tag)) (tag_titles t.uuid m)
    && t.trashed == 0

-- `correlate`: the first row, by the time of creation, that is not excluded
unfoldable pub mirror_correlate :
    (String → String)
    → (String → String)
    → String
    → Time
    → String
    → List String
    → Mirror
    → Option String
mirror_correlate sql_lower lower title created_after tag excluded m =
    elim (find (λ t. not (any (str_eq t.uuid) excluded))
      (order_by (λ t. t.creation_date)
        (select (is_correlated sql_lower lower title created_after tag m) m.tasks))) [
          | none ↦ none
          | some t ↦ some t.uuid
        ]
