-- ===== src/Spoke/State/Journal.antt =====
-- What the tables of a spoke remember.

use things_team.Base.{
  ◌≡◌, refl, ◌∙◌, ℕ, String, Bool, true, false, ◌&&◌, ◌||◌, Option, none, some, List, ◌∷◌, [],
  arith, ◌==◌, inl, inr, Bool-cases, Option-cases, str_eq, eq_iff, if◌then◌else◌,
}
use things_team.Base.Table.{find, any, delete}
use things_team.Base.Table.Laws.{find-append, find-update, find-holds, find-any_of, any-append}
use things_team.Base.Table.Exists.{All-always}
use things_team.Base.Table.Queries.{any-join}
use things_team.Hub.Schema.{RowId, Time}
use things_team.Hub.Accounts.{text_is}
use things_team.Spoke.State.{
  SpokeState, JournalEntry, Retag, replace, is_sent, known_sent, mark_sent, journal_open, intent,
  journal_intent, closed, journal_close, journaled_dst_uuids, is_retagged, mark_retagged,
  mark_observed, Write, sent, intended, closing, retag, observation, write, write_all,
}

module _ {ℓ} {A : Type ℓ} (p q : A → Bool) where
  -- A query that shares no row with what is deleted.
  find-delete_other :
      (xs : List A) → ((x : A) → p x ≡ true → q x ≡ false) → find p (delete q xs) ≡ find p xs
  unfolding find delete
  find-delete_other [] h = refl
  find-delete_other (x ∷ xs) h = ground (arith, h x, find-delete_other xs h)

  find-delete-same :
      (xs : List A) → ((x : A) → p x ≡ true → q x ≡ true) → find p (delete q xs) ≡ none
  unfolding find delete
  find-delete-same [] h = refl
  find-delete-same (x ∷ xs) h = ground (arith, h x, find-delete-same xs h)

  any-delete_other :
      (xs : List A) → ((x : A) → p x ≡ true → q x ≡ false) → any p (delete q xs) ≡ any p xs
  unfolding any delete
  any-delete_other [] h = refl
  any-delete_other (x ∷ xs) h = ground (arith, h x, any-delete_other xs h)

  -- A row takes the place of those with its key, which are all that it can hide.
  any-replace :
      (y : A) (xs : List A)
      → ((x : A) → p x ≡ true → q x ≡ true → p y ≡ true)
      → any p (replace q y xs) ≡ (any p xs || p y)
  unfolding replace
  any-replace y xs h = elim (Bool-cases (p y)) [
    | inl new ↦ ground (arith, any-append p (delete q xs) y)
    | inr other ↦
        ground
          (arith, any-append p (delete q xs) y, any-delete_other xs (λ x k. ground (arith, h x k)))
  ]

-- The row that a write makes in the sent cache.
abbrev pub marks : String → ℕ → Write → Bool
marks u rev (sent now u' rev' t) = str_eq u' u && rev' == rev
marks u rev _ = false

abbrev pub retags : RowId → Write → Bool
retags i (retag now t) = t == i
retags i _ = false

pub write-known_sent :
    (u : String) (rev : ℕ) (w : Write) (st : SpokeState)
    → known_sent u rev (write w st) ≡ (known_sent u rev st || marks u rev w)
unfolding write known_sent mark_sent journal_intent journal_close mark_retagged mark_observed
write-known_sent u rev (sent now u' rev' t) st =
    any-replace (is_sent u rev) (is_sent u' rev') _ st.sent_cache
      (λ x h k. ground (arith, eq_iff x.src_uuid u, eq_iff x.src_uuid u', eq_iff u' u))
write-known_sent u rev (intended now i t title tag) st = ground arith
write-known_sent u rev (closing i dst) st = ground arith
write-known_sent u rev (retag now t) st = ground arith
write-known_sent u rev (observation now t x) st = ground arith

write-is_retagged :
    (i : RowId) (w : Write) (st : SpokeState)
    → is_retagged i (write w st) ≡ (is_retagged i st || retags i w)
unfolding write is_retagged mark_sent journal_intent journal_close mark_retagged mark_observed
write-is_retagged i (retag now t) st =
    any-replace (λ (r : Retag). r.transfer_id == i) (λ (r : Retag). r.transfer_id == t) _
      st.retagged (λ x h k. ground arith)
write-is_retagged i (sent now u' rev' t) st = ground arith
write-is_retagged i (intended now j t title tag) st = ground arith
write-is_retagged i (closing j dst) st = ground arith
write-is_retagged i (observation now t x) st = ground arith

-- After any writes, a todo is known as sent if it was before or one of the writes marked it, a transfer
-- as retagged likewise; so neither is ever forgotten, and nothing else is taken for sent or retagged.
pub marks_last :
    (ws : List Write) (st : SpokeState)
    → ((u : String) (rev : ℕ)
        → known_sent u rev (write_all ws st) ≡ (known_sent u rev st || any (marks u rev) ws))
      × ((i : RowId) → is_retagged i (write_all ws st) ≡ (is_retagged i st || any (retags i) ws))
unfolding write_all any
marks_last [] st = (λ u rev. ground arith, λ i. ground arith)
marks_last (w ∷ ws) st =
    let rest = marks_last ws (write w st) in
    (
      λ u rev. ground (arith, rest.0 u rev, write-known_sent u rev w st),
      λ i. ground (arith, rest.1 i, write-is_retagged i w st),
    )

-- The writes to the journal entry of a delivery.
abbrev pub journals : RowId → Write → Bool
journals i (intended now j t title tag) = j == i
journals i (closing j dst) = j == i
journals i _ = false

pub find-replace :
    (i j : RowId) (y : JournalEntry) (xs : List JournalEntry)
    → y.delivery_id ≡ j
    → find
        (λ (x : JournalEntry). x.delivery_id == i)
        (replace (λ (x : JournalEntry). x.delivery_id == j) y xs)
      ≡ (if j == i then some y else find (λ (x : JournalEntry). x.delivery_id == i) xs)
unfolding replace find
find-replace i j y xs e = elim (Bool-cases (j == i)) [
  | inl own ↦ ground (
    arith,
    find-append (λ (x : JournalEntry). x.delivery_id == i)
        (delete (λ (x : JournalEntry). x.delivery_id == j) xs) (y ∷ []),
    find-delete-same (λ (x : JournalEntry). x.delivery_id == i)
        (λ (x : JournalEntry). x.delivery_id == j) xs (λ x h. ground arith),
  )
  | inr other ↦ ground (
    arith,
    find-append (λ (x : JournalEntry). x.delivery_id == i)
        (delete (λ (x : JournalEntry). x.delivery_id == j) xs) (y ∷ []),
    find-delete_other (λ (x : JournalEntry). x.delivery_id == i)
        (λ (x : JournalEntry). x.delivery_id == j) xs (λ x h. ground arith),
  )
]

write-journal_open :
    (i : RowId) (w : Write) (st : SpokeState)
    → journals i w ≡ false
    → journal_open i (write w st) ≡ journal_open i st
unfolding write journal_open mark_sent journal_intent journal_close mark_retagged mark_observed
write-journal_open i (intended now j t title tag) st h =
    ground (arith, find-replace i j (intent now j t title tag) st.journal refl)
write-journal_open i (closing j dst) st h =
    let at_i = λ (x : JournalEntry). x.delivery_id == i in
    let at_j = λ (x : JournalEntry). x.delivery_id == j in
    let moved = find-update at_i at_j (closed dst) st.journal (λ x. refl) in
    elim (Option-cases (find at_i st.journal)) [
      | inl missing ↦ ground (arith, moved)
      | inr (x, here) ↦ ground (arith, moved, find-holds at_i st.journal here)
    ]
write-journal_open i (sent now u' rev' t) st h = refl
write-journal_open i (retag now t) st h = refl
write-journal_open i (observation now t x) st h = refl

writes-journal_open :
    (i : RowId) (ws : List Write) (st : SpokeState)
    → any (journals i) ws ≡ false
    → journal_open i (write_all ws st) ≡ journal_open i st
unfolding write_all any
writes-journal_open i [] st h = refl
writes-journal_open i (w ∷ ws) st h =
    writes-journal_open i ws (write w st) (ground arith) ∙ write-journal_open i w st (ground arith)

opens :
    (now : Time) (i t : RowId) (title tag : String) (st : SpokeState)
    → journal_open i (journal_intent now i t title tag st) ≡ some (intent now i t title tag)
unfolding journal_open journal_intent
opens now i t title tag st =
    ground (arith, find-replace i i (intent now i t title tag) st.journal refl)

closes :
    (i : RowId) (dst : String) (st : SpokeState) {j : JournalEntry}
    → journal_open i st ≡ some j
    → journal_open i (journal_close i dst st) ≡ some (closed dst j)
unfolding journal_open journal_close
closes i dst st {j} h =
    let at_i = λ (x : JournalEntry). x.delivery_id == i in
    ground (
      arith,
      find-update at_i at_i (closed dst) st.journal (λ x. refl),
      find-holds at_i st.journal h,
    )

has_dst :
    (o : Option String) (dst : String)
    → text_is dst o ≡ true
    → (u : String) × (o ≡ some u) × (str_eq u dst ≡ true)
has_dst none dst h = cc
has_dst (some u) dst h = (u, refl, h)

excluded :
    (i : RowId) (dst : String) (st : SpokeState) {j : JournalEntry}
    → journal_open i st ≡ some j
    → j.dst_uuid ≡ some dst
    → any (λ u. str_eq u dst) (journaled_dst_uuids st) ≡ true
unfolding journal_open journaled_dst_uuids
excluded i dst st {j} h e =
    any-join (λ (x : JournalEntry). x.dst_uuid) (λ (x : JournalEntry). text_is dst x.dst_uuid)
      (λ u. str_eq u dst) st.journal (All-always _ st.journal (λ x k. has_dst x.dst_uuid dst k))
      (find-any_of (λ (x : JournalEntry). x.delivery_id == i)
        (λ (x : JournalEntry). text_is dst x.dst_uuid) st.journal h
        (ground (arith, eq_iff dst dst)))

-- After the intent to apply a create delivery is journaled, whatever was journaled before, and whatever
-- is written after that for others, its entry is open, with no uuid of a copy; and once it is closed
-- with a uuid, it has that uuid, whatever is written after that for others, and that uuid is among
-- the journaled ones.
pub journal_lasts :
    (now : Time) (i t : RowId) (title tag dst : String) (ws ws' : List Write) (st : SpokeState)
    → any (journals i) ws ≡ false
    → any (journals i) ws' ≡ false
    → let opened = write_all ws (journal_intent now i t title tag st) in
      let closed_now = write_all ws' (journal_close i dst opened) in
      (journal_open i opened ≡ some (intent now i t title tag))
      × (journal_open i closed_now ≡ some (closed dst (intent now i t title tag)))
      × (any (λ u. str_eq u dst) (journaled_dst_uuids closed_now) ≡ true)
unfolding journaled_dst_uuids
journal_lasts now i t title tag dst ws ws' st h h' =
    let started =
      writes-journal_open i ws (journal_intent now i t title tag st) h
      ∙ opens now i t title tag st in
    let opened = write_all ws (journal_intent now i t title tag st) in
    let over =
      writes-journal_open i ws' (journal_close i dst opened) h' ∙ closes i dst opened started in
    (started, over, excluded i dst (write_all ws' (journal_close i dst opened)) over refl)
