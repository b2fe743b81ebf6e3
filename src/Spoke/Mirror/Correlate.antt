-- ===== src/Spoke/Mirror/Correlate.antt =====
-- Which copy `correlate` finds after a create.
use mathlib.Core.List.{Mem}
use things_team.Base.Table.Members.{All-mem}
use things_team.Base.{
  ◌==◌, ltb, String, ◌≡◌, refl, Bool, true, false, not, ◌&&◌, Option, none, some, List, str_eq,
  arith, inl, inr, Bool-cases, sym, ◌∙◌, ap, eq_iff, ◌≤◌,
}
use things_team.Base.Table.{find, any, select, order_by}
use things_team.Base.Table.Laws.{
  All, All-map, All-find, All-select, All-order_by, find-holds, any-find-some,
}
use things_team.Base.Table.Exists.{any-All, All-any, All-always, any-imp}
use things_team.Base.Table.Queries.{any-select, any-order_by}
use things_team.Base.Table.Sorted.{find-least, order_by-Sorted}
use things_team.Hub.Schema.{Time}
use things_team.Hub.Accounts.{text_is}
use things_team.Spoke.Mirror.{
  TaskRow, Mirror, is_correlated, find_task, tag_titles, status_name, mirror_correlate,
  mirror_status, mirror_tags_of,
}
use things_team.Spoke.World.{Status}
use things_team.Base.Table.Distinct.{Distinct}
use things_team.Spoke.Mirror.Candidates.{same_task, find_self}

text_is-some : (s : String) (o : Option String) → text_is s o ≡ true → o ≡ some s
text_is-some s none h = cc
text_is-some s (some t) h = ap some ((eq_iff t s).0 h)

module _ (sql_lower lower : String → String) (title : String) (created_after : Time) (tag : String)
    (excluded : List String) (m : Mirror) where
  abbrev fits : TaskRow → Bool
  fits = is_correlated sql_lower lower title created_after tag m

  abbrev is_new : TaskRow → Bool
  is_new t = not (any (str_eq t.uuid) excluded)

  -- A row that `correlate` may return
  abbrev is_match : TaskRow → Bool
  is_match t = fits t && is_new t

  abbrev is_older : TaskRow → TaskRow → Bool
  is_older t y = is_match y && ltb y.creation_date t.creation_date

  abbrev rows : List TaskRow
  rows = order_by (λ t. t.creation_date) (select fits m.tasks)

  rows-All : All (λ t. Mem t m.tasks × (fits t ≡ true)) rows
  rows-All = All-order_by _ _ _ (All-select _ fits m.tasks (All-mem m.tasks))

  any-rows :
      (q : TaskRow → Bool)
      → ((t : TaskRow) → q t ≡ true → fits t ≡ true)
      → any q m.tasks ≡ true
      → any q rows ≡ true
  any-rows q h e =
      any-order_by _ _ (select fits m.tasks) ∙ any-select fits q m.tasks (All-always _ m.tasks h) e

  none_new : find is_new rows ≡ none → any is_new rows ≡ true → false ≡ true
  none_new h e = let (t, found) = any-find-some is_new rows e in cc

  least_new : (t : TaskRow) → find is_new rows ≡ some t → any (is_older t) rows ≡ false
  least_new t h = All-any (is_older t) rows (
      All-map _ _ rows (λ y below. ground (arith, below))
        (find-least (λ r. r.creation_date) is_new rows (order_by-Sorted _ (select fits m.tasks)) h))

  abbrev Least : Option String → Type 0
  Least none = any is_match m.tasks ≡ false
  Least (some u) =
      (t : TaskRow) × (t.uuid ≡ u)
      × Mem t m.tasks
      × (is_match t ≡ true)
      × (any (is_older t) m.tasks ≡ false)

  Least-found :
      (o : Option TaskRow)
      → find is_new rows ≡ o
      → Least (elim o [ none ↦ none | some t ↦ some t.uuid ])
  Least-found none h = elim (Bool-cases (any is_match m.tasks)) [
    | inl e ↦
        let there = any-rows is_match (λ t f. ground arith) e in
        e
        ∙ sym (
            none_new h
              (any-imp is_match is_new rows (All-always _ rows (λ t f. ground arith)) there))
    | inr e ↦ e
  ]
  Least-found (some t) h =
      let (here, good) = All-find _ is_new rows rows-All h in
      let new = find-holds is_new rows h in
      (
        t,
        refl,
        here,
        ground arith,
        elim (Bool-cases (any (is_older t) m.tasks)) [
          | inl e ↦ sym (cc (any-rows (is_older t) (λ y f. ground arith) e, least_new t h))
          | inr e ↦ e
        ],
      )

  -- What a copy is: it has the title and a tag of that name, was made since, and is neither in the trash nor
  -- excluded.
  pub record IsCopy (t : TaskRow) : Type 0 where
    pub titled : t.title ≡ some title
    pub recent : created_after ≤ t.creation_date
    pub tagged : any (λ g. str_eq (sql_lower g) (lower tag)) (tag_titles t.uuid m) ≡ true
    pub kept : t.trashed ≡ 0
    pub new : any (str_eq t.uuid) excluded ≡ false

  match-IsCopy : (t : TaskRow) → is_match t ≡ true → IsCopy t
  match-IsCopy t h = record {
    titled = text_is-some title t.title (ground arith);
    recent = ground arith;
    tagged = ground arith;
    kept = ground arith;
    new = ground arith;
  }

  IsCopy-match : (t : TaskRow) → IsCopy t → is_match t ≡ true
  IsCopy-match t c =
      let titled : text_is title t.title ≡ true =
        ap (text_is title) c.titled ∙ (eq_iff title title).1 refl in
      ground (arith, c.recent, c.tagged, c.kept, c.new)

  abbrev pub Correlates : Option String → Type 0
  Correlates none = All (λ y. ¬ (IsCopy y)) m.tasks
  Correlates (some u) =
      (t : TaskRow) × (t.uuid ≡ u)
      × Mem t m.tasks
      × IsCopy t
      × All (λ y. IsCopy y → t.creation_date ≤ y.creation_date) m.tasks

  Least-Correlates : (o : Option String) → Least o → Correlates o
  Least-Correlates none none_fits =
      All-map _ _ m.tasks (λ y e. λ c. cc (e, IsCopy-match y c))
        (any-All is_match m.tasks none_fits)
  Least-Correlates (some u) (t, same, here, fit, least) = (
    t,
    same,
    here,
    match-IsCopy t fit,
    All-map _ _ m.tasks (λ y e. λ c. let k = IsCopy-match y c in ground (arith, e, k))
        (any-All (is_older t) m.tasks least),
  )

  -- `correlate` finds a task of the table with the title, created at the time given or later, not in the
  -- trash, with the tag, and not excluded, and no other such task was created before it. It finds
  -- nothing only if there is no such task.
  pub mirror_correlate_least :
      Correlates (mirror_correlate sql_lower lower title created_after tag excluded m)
  unfolding mirror_correlate
  mirror_correlate_least = Least-Correlates _ (Least-found (find is_new rows) refl)

  -- What the reader says of a copy that it has just found
  abbrev pub IsSeen : String → Type 0
  IsSeen u =
      ((s : Status) × (mirror_status u m ≡ some s) × (s.trashed ≡ false))
      × ((gs : List String) × (mirror_tags_of u m ≡ some gs)
          × (any (λ g. str_eq (sql_lower g) (lower tag)) gs ≡ true))

  found-IsSeen : (t : TaskRow) → find_task t.uuid m ≡ some t → fits t ≡ true → IsSeen t.uuid
  unfolding mirror_status mirror_tags_of
  found-IsSeen t h f = (
    (
      record { status = status_name t.status; trashed = not (t.trashed == 0) },
      rw (h, mirror_status),
      ground arith,
    ),
    (tag_titles t.uuid m, rw (h, mirror_tags_of), ground arith),
  )

  row-IsSeen :
      (o : Option TaskRow) (u : String)
      → Distinct same_task m.tasks
      → find is_new rows ≡ o
      → elim o [ none ↦ none | some t ↦ some t.uuid ] ≡ some u
      → IsSeen u × (any (str_eq u) excluded ≡ false)
  row-IsSeen none u d h e = absurd (cc)
  row-IsSeen (some t) u d h e =
      let (self, f) =
        All-find (λ r. (find_task r.uuid m ≡ some r) × (fits r ≡ true)) is_new rows
          (All-order_by _ _ _ (All-select _ fits m.tasks (find_self m.tasks d))) h in
      let same : t.uuid ≡ u = cc in
      rw (← same) (found-IsSeen t self f, ground (arith, find-holds is_new rows h))

  -- A copy that `correlate` finds is one of which `status` says that it is not in the trash and `tags_of`
  -- that it has the tag, and it is not among the excluded ones, if no two tasks share a uuid.
  pub mirror_correlate-IsSeen :
      (u : String)
      → Distinct same_task m.tasks
      → mirror_correlate sql_lower lower title created_after tag excluded m ≡ some u
      → IsSeen u × (any (str_eq u) excluded ≡ false)
  unfolding mirror_correlate
  mirror_correlate-IsSeen u d h = row-IsSeen (find is_new rows) u d refl h
