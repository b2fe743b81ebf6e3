-- ===== src/Spoke/Tests.antt =====
-- Runs of `SpokeState` and of the outbound phase of spoke/core.py.
use things_team.Json.{Json, arr, is_dict, get, truthy}
use things_team.Base.{
  Bool, arith, eq_iff, false, none, ◌≡◌, refl, ℕ, String, true, ◌||◌, some, List, ◌∷◌, [], str_eq,
}
use things_team.Base.Table.{find, any, delete}
use things_team.Hub.Schema.{RowId, completed}
use things_team.Spoke.State.{
  SpokeState, replace, known_sent, mark_sent, journal_open, intent, journal_intent, closed,
  journal_close, journaled_dst_uuids, is_retagged, Write, sent, intended, closing, retag,
  observation, write_all,
}
use things_team.Spoke.Outbound.{
  Candidate, refusal, envelope, Route, PushHub, add_triggers, all_triggers, handle_of, match_tags,
  outbound_one, outbound_loop, outbound_with, outbound,
}
use things_team.Spoke.Outbound.Fate.{is_handled, outbound_once}
use things_team.Base.Table.Laws.{All}
use things_team.Spoke.Outbound.Envelope.{items, envelope_whole}
use things_team.Spoke.State.Journal.{marks, retags, marks_last, journal_lasts}

abbrev fresh_state : SpokeState
fresh_state = record { sent_cache = []; journal = []; retagged = []; observed = [] }

-- What a tick writes for others.
abbrev others : List Write
others =
    sent 20 "T1" 1 (some 4)
    ∷ intended 21 8 9 "eggs" "from-ann"
    ∷ closing 8 "B8"
    ∷ retag 22 4
    ∷ observation 23 9 completed
    ∷ []

marks_last_example :
    ((u : String) (rev : ℕ)
      → known_sent u rev (write_all others fresh_state)
        ≡ (known_sent u rev fresh_state || any (marks u rev) others))
    × ((i : RowId)
        → is_retagged i (write_all others fresh_state)
          ≡ (is_retagged i fresh_state || any (retags i) others))
marks_last_example = marks_last others fresh_state

journal_lasts_example :
    let opened = write_all others (journal_intent 15 5 4 "milk" "from-ann" fresh_state) in
    let closed_now = write_all others (journal_close 5 "B1" opened) in
    (journal_open 5 opened ≡ some (intent 15 5 4 "milk" "from-ann"))
    × (journal_open 5 closed_now ≡ some (closed "B1" (intent 15 5 4 "milk" "from-ann")))
    × (any (λ u. str_eq u "B1") (journaled_dst_uuids closed_now) ≡ true)
unfolding any
journal_lasts_example =
    journal_lasts 15 5 4 "milk" "from-ann" "B1" others others fresh_state refl refl

abbrev eggs : Candidate
eggs = record {
  uuid = "T2";
  title = some "eggs";
  notes = none;
  checklist = "six" ∷ "brown" ∷ [];
  tags = "home" ∷ "for-bob" ∷ [];
  when_date = none;
  deadline = none;
  is_repeating = false;
  kind = 0;
}

abbrev rent : Candidate
rent = record eggs { uuid = "T3"; is_repeating = true }

abbrev same : String → String
same s = s

-- A hub that notes what is pushed.
abbrev notes : PushHub (List String)
notes to uuid payload rev h = (some 4, uuid ∷ h)

abbrev routes : List Route
routes = record { handle = "bob"; tags = "for-bob" ∷ [] } ∷ []

eggs_pushed :
    (outbound same (λ c. 20) notes routes (eggs ∷ rent ∷ eggs ∷ []) [] fresh_state).0 ≡ "T2" ∷ []
unfolding outbound outbound_with outbound_loop outbound_one all_triggers add_triggers match_tags
    handle_of refusal known_sent mark_sent replace find any delete
eggs_pushed = refl

abbrev noted : String → List String → Bool
noted u h = any (str_eq u) h

notes_takes :
    (to uuid : String) (payload : Json) (rev : ℕ) (h : List String)
    → noted uuid (notes to uuid payload rev h).1 ≡ true
unfolding any
notes_takes to uuid payload rev h = ground (arith, eq_iff uuid uuid)

notes_stays :
    (u to uuid : String) (payload : Json) (rev : ℕ) (h : List String)
    → noted u h ≡ true
    → noted u (notes to uuid payload rev h).1 ≡ true
unfolding any
notes_stays u to uuid payload rev h e = ground arith

outbound_once_example :
    let (h', st') = outbound same (λ c. 20) notes routes (eggs ∷ rent ∷ []) [] fresh_state in
    All (λ c. is_handled same routes noted fresh_state h' c ≡ true) (eggs ∷ rent ∷ [])
    × (◌≡◌ {A = List String × SpokeState}
        (outbound same (λ c. 30) notes routes (eggs ∷ rent ∷ []) h' st')
        (h', st'))
outbound_once_example =
    outbound_once same (λ c. 20) (λ c. 30) notes routes noted (λ to uuid payload rev x. refl)
      notes_takes notes_stays (eggs ∷ rent ∷ []) [] fresh_state

envelope_whole_example :
    (is_dict (envelope eggs) ≡ true)
    × (get "checklist" (envelope eggs) ≡ arr (items ("six" ∷ "brown" ∷ [])))
    × (truthy (get "title" (envelope eggs)) ≡ true)
unfolding refusal
envelope_whole_example = envelope_whole eggs refl
