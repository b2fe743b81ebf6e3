-- ===== src/Spoke/Outbound/Envelope.antt =====
-- What the envelope of a todo carries.
use things_team.Base.{
  ◌≡◌, refl, ap, ℕ, suc, zero, ◌≤◌, String, true, not, none, List, ◌∷◌, [], arith, str_eq,
}
use things_team.Base.Table.Queries.{length}
use things_team.Json.{Items, nil, cons, text, arr, is_dict, get, get_field, truthy}
use things_team.Spoke.Outbound.{Candidate, refusal, clip_items, max_checklist, or_empty, envelope}

-- The whole list as JSON texts.
unfoldable pub items : List String → Items
items [] = nil
items (x ∷ xs) = cons (text x) (items xs)

clip_items-items : (n : ℕ) (xs : List String) → length xs ≤ n → clip_items n xs ≡ items xs
unfolding clip_items items
clip_items-items zero [] h = refl
clip_items-items zero (x ∷ xs) h = absurd (ground arith)
clip_items-items (suc n) [] h = refl
clip_items-items (suc n) (x ∷ xs) h = ap (cons (text x)) (clip_items-items n xs (ground arith))

-- The envelope of a todo that is not refused is a JSON object with the todo's whole checklist, none of
-- its items cut off, and the hub's test on the title passes if the todo has one.
pub envelope_whole :
    (c : Candidate)
    → refusal c ≡ none
    → (is_dict (envelope c) ≡ true)
      × (get "checklist" (envelope c) ≡ arr (items c.checklist))
      × (truthy (get "title" (envelope c)) ≡ not (str_eq (or_empty c.title) ""))
unfolding refusal envelope get get_field
envelope_whole c h =
    (refl, ap arr (clip_items-items max_checklist c.checklist (ground arith)), refl)
