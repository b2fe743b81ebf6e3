-- ===== src/Spoke/Mirror/Candidates.antt =====
-- What `outbound_candidates` returns.
use mathlib.Core.List.{Mem}
use things_team.Base.Table.Members.{All-mem, select-All}
use things_team.Spoke.Outbound.{Candidate}
use things_team.Base.{
  true, false, ◌||◌, sym, ◌∙◌, String, ◌≡◌, refl, Bool, some, List, [], ◌∷◌, map, str_eq, eq_iff,
  arith, ap,
}
use things_team.Base.Table.{find, any, select, join}
use things_team.Base.Table.Laws.{All, All-map, All-select, All-both}
use things_team.Base.Table.Exists.{any-All, All-always}
use things_team.Base.Table.Distinct.{Distinct}
use things_team.Spoke.Mirror.{
  TaskRow, Mirror, find_task, snapshot, snapshot_row, tag_titles, is_eligible, mirror_candidates,
}

-- The key of TMTask
abbrev pub same_task : TaskRow → TaskRow → Bool
same_task a b = str_eq a.uuid b.uuid

pub find_self :
    (ts : List TaskRow)
    → Distinct same_task ts
    → All (λ t. find (λ r. str_eq r.uuid t.uuid) ts ≡ some t) ts
unfolding find
find_self [] d = tt
find_self (t ∷ ts) d = (
  ground (arith, eq_iff t.uuid t.uuid),
  All-map _ _ ts (λ r (other, h). ground arith)
      (All-both _ _ ts (any-All (same_task t) ts d.0) (find_self ts d.1)),
)

join-snapshot :
    (m : Mirror) (ts : List TaskRow)
    → All (λ t. find_task t.uuid m ≡ some t) ts
    → join (snapshot m) (map (λ (t : TaskRow). t.uuid) ts) ≡ map (snapshot_row m) ts
unfolding join snapshot
join-snapshot m [] h = refl
join-snapshot m (t ∷ ts) h =
    rw (h.0, join) (ap (λ cs. snapshot_row m t ∷ cs) (join-snapshot m ts h.1))

module _ (sql_lower lower : String → String) (titles : List String) (m : Mirror) where
  -- What the code asks of a task: an open to-do that is not in the trash, with a tag that is, up to case,
  -- one of the titles
  pub record IsOpen (t : TaskRow) : Type 0 where
    pub kept : t.trashed ≡ 0
    pub undone : t.status ≡ 0
    pub todo : t.kind ≡ 0
    pub asked :
        any (λ g. any (λ title. str_eq (sql_lower g) (lower title)) titles) (tag_titles t.uuid m)
        ≡ true

  any-map :
      (x : String) (ys : List String)
      → any (str_eq x) (map lower ys) ≡ any (λ y. str_eq x (lower y)) ys
  unfolding any
  any-map x [] = refl
  any-map x (y ∷ ys) = ap (λ b. str_eq x (lower y) || b) (any-map x ys)

  any-same :
      (gs : List String)
      → any (λ g. any (str_eq (sql_lower g)) (map lower titles)) gs
        ≡ any (λ g. any (λ title. str_eq (sql_lower g) (lower title)) titles) gs
  unfolding any
  any-same [] = refl
  any-same (g ∷ gs) = ground (arith, any-map (sql_lower g) titles, any-same gs)

  abbrev eligible : TaskRow → Bool
  eligible = is_eligible sql_lower (map lower titles) m

  eligible-IsOpen : (t : TaskRow) → eligible t ≡ true → IsOpen t
  eligible-IsOpen t h = record {
    kept = ground arith;
    undone = ground arith;
    todo = ground arith;
    asked = sym (any-same (tag_titles t.uuid m)) ∙ ground arith;
  }

  IsOpen-eligible : (t : TaskRow) → IsOpen t → eligible t ≡ true
  IsOpen-eligible t o =
      ground (arith, o.kept, o.undone, o.todo, any-same (tag_titles t.uuid m) ∙ o.asked)

  -- The candidates are the snapshots of the rows `ts`.
  abbrev pub Chosen : List Candidate → List TaskRow → Type 0
  Chosen cs ts =
      (cs ≡ map (snapshot_row m) ts)
      × All (λ t. Mem t m.tasks × IsOpen t) ts
      × All (λ t. IsOpen t → Mem t ts) m.tasks

  eligible-Chosen :
      Distinct same_task m.tasks
      → Chosen
          (join (snapshot m) (map (λ (t : TaskRow). t.uuid) (select eligible m.tasks)))
          (select eligible m.tasks)
  eligible-Chosen d = (
    join-snapshot m (select eligible m.tasks) (
        All-map _ _ (select _ m.tasks) (λ t h. h.0) (All-select _ _ m.tasks (find_self m.tasks d))),
    All-map _ _ (select eligible m.tasks) (λ t h. (h.0, eligible-IsOpen t h.1))
        (All-select _ eligible m.tasks (All-mem m.tasks)),
    All-map _ _ m.tasks (λ t h o. h (IsOpen-eligible t o)) (select-All eligible m.tasks),
  )

no_title :
    (sql_lower lower : String → String) (gs : List String)
    → any (λ g. any (λ title. str_eq (sql_lower g) (lower title)) []) gs ≡ false
unfolding any
no_title sql_lower lower [] = refl
no_title sql_lower lower (g ∷ gs) = no_title sql_lower lower gs

-- Where no two tasks share a uuid, the candidates are the snapshots of tasks of the table that are open
-- to-dos, not in the trash, and have a tag that is one of the titles up to case, although every task is read
-- again by its uuid; and every such task of the table is among them. With no title there are none.
pub mirror_candidates-exact :
    (sql_lower lower : String → String) (titles : List String) (m : Mirror)
    → Distinct same_task m.tasks
    → (ts : List TaskRow) × Chosen sql_lower lower titles m
        (mirror_candidates sql_lower lower titles m)
        ts
unfolding mirror_candidates
mirror_candidates-exact sql_lower lower [] m d = (
  [],
  (
    refl,
    tt,
    All-always _ m.tasks (λ t o. cc (o.asked, no_title sql_lower lower (tag_titles t.uuid m))),
  ),
)
mirror_candidates-exact sql_lower lower (g ∷ gs) m d =
    (select _ m.tasks, eligible-Chosen sql_lower lower (g ∷ gs) m d)
