-- ===== src/Spoke/Mirror/Tests.antt =====
-- Runs of the reader of spoke/things_db.py.
use things_team.Base.{◌≡◌, refl, false, none, some, [], ◌∷◌, str_eq, arith, List}
use things_team.Base.Table.{find, any, select, join, insert_by, order_by}
use things_team.Base.Table.Distinct.{Distinct}
use things_team.Hub.Sample.{same}
use things_team.Spoke.Mirror.{
  TaskRow, Mirror, two_digits, four_digits, iso_date, things_date, tag_titles, mirror_candidates,
  mirror_correlate,
}
use things_team.Spoke.Mirror.Dates.{packed, things_date-packed}
use things_team.Spoke.Mirror.Candidates.{same_task, Chosen, mirror_candidates-exact}
use things_team.Spoke.Mirror.Correlate.{
  Correlates, IsSeen, mirror_correlate_least, mirror_correlate-IsSeen,
}

abbrev tea : TaskRow
tea = record {
  uuid = "T1";
  title = some "tea";
  notes = none;
  status = 0;
  kind = 0;
  trashed = 0;
  start = 1;
  start_date = some 132805120;
  deadline = none;
  creation_date = 50;
  recurrence = false;
  template = false;
}

abbrev more_tea : TaskRow
more_tea = record tea { uuid = "T2"; creation_date = 40 }

abbrev shelf : Mirror
shelf = record {
  tasks = tea ∷ more_tea ∷ [];
  tags = record { uuid = "G1"; title = "from-ann" } ∷ [];
  links = record { task = "T1"; tag = "G1" } ∷ record { task = "T2"; tag = "G1" } ∷ [];
  checklist = record { task = "T1"; title = "pot"; index = 1 } ∷ [];
}

things_date-packed_example : things_date (some (packed 2026 7 4 64)) ≡ some (iso_date 2026 7 4)
things_date-packed_example =
    things_date-packed 2026 7 4 64 (omega arith) (omega arith) (omega arith) (omega arith)
      (omega arith)

written_date : iso_date 2026 7 4 ≡ "2026-07-04"
unfolding iso_date four_digits two_digits
written_date = refl

two_tasks : Distinct same_task shelf.tasks
unfolding any
two_tasks = (refl, (refl, tt))

mirror_candidates-exact_example :
    (ts : List TaskRow) × Chosen same same
      ("from-ann" ∷ [])
      shelf
      (mirror_candidates same same ("from-ann" ∷ []) shelf)
      ts
mirror_candidates-exact_example =
    mirror_candidates-exact same same ("from-ann" ∷ []) shelf two_tasks

mirror_correlate_least_example :
    Correlates same same "tea" 30 "from-ann"
      ("T9" ∷ [])
      shelf
      (mirror_correlate same same "tea" 30 "from-ann" ("T9" ∷ []) shelf)
mirror_correlate_least_example =
    mirror_correlate_least same same "tea" 30 "from-ann" ("T9" ∷ []) shelf

older_found : mirror_correlate same same "tea" 30 "from-ann" ("T9" ∷ []) shelf ≡ some "T2"
unfolding mirror_correlate find any select join insert_by order_by tag_titles
older_found = refl

mirror_correlate-IsSeen_example :
    IsSeen same same "tea" 30 "from-ann" ("T9" ∷ []) shelf "T2"
    × (any (str_eq "T2") ("T9" ∷ []) ≡ false)
mirror_correlate-IsSeen_example =
    mirror_correlate-IsSeen same same "tea" 30 "from-ann" ("T9" ∷ []) shelf "T2" two_tasks
      older_found
