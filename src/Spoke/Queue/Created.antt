-- ===== src/Spoke/Queue/Created.antt =====
-- What a create hands to Things.
use things_team.Base.{◌≡◌, refl, String, none, some, arith, ap, ◌∙◌, eq_iff, if◌then◌else◌}
use things_team.Json.{
  Json, null, text, arr, obj, Items, nil, cons, Fields, end, field, truthy, get, get_field,
}
use things_team.Json.Access.{Texts, find_field, or_blank, dict, field_of, iterate}
use things_team.Exec.{finished, pure, branch, on_option, ◌>>=◌}
use things_team.Spoke.Outbound.{Candidate, refusal, envelope, max_notes, or_empty, or_null}
use things_team.Hub.Ack.{clip}
use things_team.Spoke.Outbound.Envelope.{items, envelope_whole}
use things_team.Spoke.Queue.{checklist_items, checklist_fields, create_attributes, optional}

-- A value that is left out if it is empty
abbrev pub present : Json → Json
present v = if truthy v then v else null

abbrev pub checklist_of : Items → Json
checklist_of nil = null
checklist_of (cons v vs) = arr (checklist_items (cons v vs))

abbrev written_items : Items → Fields
written_items nil = end
written_items (cons v vs) = field "checklist-items" (arr (checklist_items (cons v vs))) end

abbrev written : Json → Json → String → Json → Json → Items → Fields
written title notes tag when deadline vs = field "title" title (
    field "notes" notes (
      field "tags" (arr (cons (text tag) nil))
        (optional "when" when (optional "deadline" deadline (written_items vs)))))

-- Attributes with these values, and the tag alone
pub record Attributes (title notes : Json) (tag : String) (when deadline : Json) (vs : Items)
    (fs : Fields) : Type 0 where
  pub title_is : get_field "title" fs ≡ title
  pub notes_is : get_field "notes" fs ≡ notes
  pub tags_is : get_field "tags" fs ≡ arr (cons (text tag) nil)
  pub when_is : get_field "when" fs ≡ present when
  pub deadline_is : get_field "deadline" fs ≡ present deadline
  pub checklist_is : get_field "checklist-items" fs ≡ checklist_of vs

written-Attributes :
    (title notes : Json) (tag : String) (when deadline : Json) (vs : Items)
    → Attributes title notes tag when deadline vs (written title notes tag when deadline vs)
unfolding get_field
written-Attributes title notes tag when deadline nil = record {
  title_is = refl;
  notes_is = refl;
  tags_is = refl;
  when_is = ground arith;
  deadline_is = ground arith;
  checklist_is = ground arith;
}
written-Attributes title notes tag when deadline (cons v vs) = record {
  title_is = refl;
  notes_is = refl;
  tags_is = refl;
  when_is = ground arith;
  deadline_is = ground arith;
  checklist_is = ground arith;
}

blank_text : (s : String) → or_blank (text s) ≡ text s
blank_text s = ground (arith, eq_iff s "")

module _ {ℓ} {S : Type ℓ} (texts : Texts) where
  create_written :
      (fs : Fields) (title : Json) (vs : Items) (tag : String) (s : S)
      → find_field "title" fs ≡ some title
      → get_field "checklist" fs ≡ arr vs
      → create_attributes texts (obj fs) tag s ≡ (
        finished (
            written title
              (or_blank (get_field "notes" fs))
              tag
              (get_field "when" fs)
              (get_field "deadline" fs)
              vs),
        s,
      )
  unfolding create_attributes dict field_of checklist_fields iterate ◌>>=◌ pure on_option branch
  create_written fs title nil tag s h k = rw (h, on_option) (rw (k, checklist_fields) refl)
  create_written fs title (cons v vs) tag s h k = rw (h, on_option) (rw (k, checklist_fields) refl)

  -- For a todo that is not refused, the create that the writer of the recipient hands on has the
  -- todo's title, its notes up to the limit, the provenance tag and no other, its date and its deadline
  -- where they are not empty, and its whole checklist.
  pub created-Attributes :
      (c : Candidate) (tag : String) (s : S)
      → refusal c ≡ none
      → (fs : Fields) × (create_attributes texts (envelope c) tag s ≡ (finished fs, s))
        × Attributes
            (text (or_empty c.title))
            (text (clip max_notes (or_empty c.notes)))
            tag
            (or_null c.when_date)
            (or_null c.deadline)
            (items c.checklist)
            fs
  unfolding envelope get get_field find_field
  created-Attributes c tag s h =
      let notes = text (clip max_notes (or_empty c.notes)) in
      let (_, whole, _) = envelope_whole c h in
      let values = λ (v : Json).
        written (text (or_empty c.title)) v tag (or_null c.when_date) (or_null c.deadline)
          (items c.checklist) in
      (
        values notes,
        create_written _ (text (or_empty c.title)) (items c.checklist) tag s refl whole
            ∙ ap (λ v. (finished (values v), s)) (blank_text (clip max_notes (or_empty c.notes))),
        written-Attributes _ notes tag _ _ (items c.checklist),
      )
