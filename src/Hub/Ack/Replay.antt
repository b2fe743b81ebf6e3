-- ===== src/Hub/Ack/Replay.antt =====
-- An ack is idempotent.
use things_team.Base.{
  ◌≡◌, refl, sym, ap, subst, ◌∙◌, String, Bool, true, ◌&&◌, Option, none, some, List, ◌∷◌, [],
  arith, inl, inr, ◌==◌, ==-refl, if◌then◌else◌, Bool-cases, Option-cases,
}
use mathlib.Core.Option
use things_team.Base.Table.{find, update}
use things_team.Base.Table.Laws.{find-append, find-update, patch}
use things_team.Hub.Schema.{
  RowId, Kind, create, complete, cancel, Terminal, Transfer, Delivery, Ledger, Principal, Draws, ok,
  after,
}
use things_team.Hub.Rows.{is_done, find_transfer, event, signal_if, queue_row}
use things_team.Hub.Ack.{
  AckReply, already_done, resolved, find_delivery, finished, finish_delivery, applied, set_applied,
  resolve_transfer, waiting_echo, queue_waiting_echo, ack_create, ack_terminal, ack_kind, ack_found,
  ack_delivery,
}

-- A row that is there is found before one that is queued.
find-queue_row :
    (q : Delivery → Bool) (n : Delivery) (ds : List Delivery) {d : Delivery}
    → find q ds ≡ some d
    → find q (queue_row n ds) ≡ some d
unfolding queue_row
find-queue_row q n ds {d} h = ground (arith, find-append q ds (n ∷ []))

find-waiting_echo :
    (s : Draws) (q : Delivery → Bool) (n d : Delivery) (o : Option Terminal) (ds : List Delivery)
    → find q ds ≡ some d
    → find q (waiting_echo s n o ds) ≡ some d
unfolding waiting_echo
find-waiting_echo s q n d none ds h = h
find-waiting_echo s q n d (some x) ds h = find-queue_row q _ ds h

-- A row written to still is found under its id.
found-update :
    (i j : RowId) (g : Transfer → Transfer) (l : Ledger) {t : Transfer}
    → ((x : Transfer) → (g x).id ≡ x.id)
    → find_transfer i l ≡ some t
    → (t' : Transfer) × (find
          (λ (x : Transfer). x.id == i)
          (update (λ (x : Transfer). x.id == j) g l.transfers)
        ≡ some t')
found-update i j g l {t} keep h = (
  patch (λ (x : Transfer). x.id == j) g t,
  find-update (λ x. x.id == i) (λ x. x.id == j) g l.transfers (λ x. rw (keep x))
      ∙ ap (Option.map (patch (λ (x : Transfer). x.id == j) g)) h,
)

-- What an ack leaves of the two rows it read.
Acked : RowId → RowId → Ledger → Type 0
Acked i member l =
    (d : Delivery) × (t : Transfer) × (find_delivery i member l ≡ some d)
    × (find_transfer d.transfer_id l ≡ some t)
    × (is_done d.state ≡ true)

module _ (s : Draws) (p : Principal) (i : RowId) (l : Ledger) {d : Delivery} {t : Transfer}
    (hd : find_delivery i p.member_id l ≡ some d)
    (ht : find_transfer d.transfer_id l ≡ some t) where
  finished-find :
      find
        (λ (x : Delivery). x.id == i && x.to_member == p.member_id)
        (update (λ (x : Delivery). x.id == d.id) (finished s.now) l.deliveries)
      ≡ some (finished s.now d)
  finished-find =
      find-update (λ (x : Delivery). x.id == i && x.to_member == p.member_id)
        (λ (x : Delivery). x.id == d.id) (finished s.now) l.deliveries (λ x. refl)
      ∙ rw hd (ap (λ b. some (if b then finished s.now d else d)) (==-refl d.id))

  ack_create-Acked :
      (dst : Option String) (l' : Ledger) (r : AckReply)
      → ack_create s p d t dst l ≡ ok r l'
      → Acked i p.member_id l'
  unfolding Acked ack_create queue_waiting_echo set_applied finish_delivery event signal_if
  ack_create-Acked none l' r h = absurd (ground arith)
  ack_create-Acked (some dst) l' r h =
      let (t', row) =
        found-update d.transfer_id d.transfer_id (applied s.now dst) l (λ x. refl) ht in
      let own =
        find-waiting_echo s (λ x. x.id == i && x.to_member == p.member_id) d (finished s.now d)
          t.terminal _ finished-find in
      (finished s.now d, t', ground (arith, own), ground (arith, row), refl)

  ack_terminal-Acked : Acked i p.member_id (after l (ack_terminal s p d l))
  unfolding Acked ack_terminal finish_delivery resolve_transfer event
  ack_terminal-Acked =
      let (t', row) = found-update d.transfer_id d.transfer_id (resolved s.now) l (λ x. refl) ht in
      (finished s.now d, t', finished-find, row, refl)

  ack_kind-Acked :
      (k : Kind) (dst : Option String) (l' : Ledger) (r : AckReply)
      → ack_kind k s p d t dst l ≡ ok r l'
      → Acked i p.member_id l'
  unfolding ack_kind
  ack_kind-Acked create dst l' r h = ack_create-Acked dst l' r h
  ack_kind-Acked complete dst l' r h =
      subst (Acked i p.member_id) (ap (after l) h) ack_terminal-Acked
  ack_kind-Acked cancel dst l' r h = subst (Acked i p.member_id) (ap (after l) h) ack_terminal-Acked

  ack_found-Acked :
      (dst : Option String) (l' : Ledger) (r : AckReply)
      → ack_found s p d t dst l ≡ ok r l'
      → Acked i p.member_id l'
  unfolding Acked ack_found
  ack_found-Acked dst l' r h = elim (Bool-cases (is_done d.state)) [
    | inl old ↦ (d, t, ground (arith, hd), ground (arith, ht), old)
    | inr open_row ↦
        let same : ack_found s p d t dst l ≡ ack_kind d.kind s p d t dst l = rw open_row refl in
        unfold Acked in ack_kind-Acked d.kind dst l' r (sym same ∙ h)
  ]

replayed :
    (s : Draws) (p : Principal) (i : RowId) (dst : Option String) (l : Ledger)
    → Acked i p.member_id l
    → ack_delivery s p i dst l ≡ ok already_done l
unfolding Acked ack_delivery ack_found
replayed s p i dst l (d, t, hd, ht, over) = rw (hd, ht, over, ack_delivery, ack_found) refl

Acked-rows :
    (s : Draws) (p : Principal) (i : RowId) (dst : Option String) (l l' : Ledger) (r : AckReply)
    → ack_delivery s p i dst l ≡ ok r l'
    → Acked i p.member_id l'
unfolding ack_delivery
Acked-rows s p i dst l l' r h = elim (Option-cases (find_delivery i p.member_id l)) [
  | inl missing ↦ absurd (ground arith)
  | inr (d, hd) ↦ elim (Option-cases (find_transfer d.transfer_id l)) [
    | inl missing ↦ absurd (ground arith)
    | inr (t, ht) ↦ ack_found-Acked s p i l hd ht dst l' r (ground arith)
  ]
]

-- Once an ack has returned, a further ack of the same delivery by the member, with whatever argument
-- and from whatever device, answers that it was done already and changes nothing.
pub ack_replay :
    (s s' : Draws) (p p' : Principal) (i : RowId) (dst dst' : Option String) (l : Ledger)
    {l' : Ledger} {r : AckReply}
    → ack_delivery s p i dst l ≡ ok r l'
    → p'.member_id ≡ p.member_id
    → ack_delivery s' p' i dst' l' ≡ ok already_done l'
ack_replay s s' p p' i dst dst' l {l'} {r} h same =
    replayed s' p' i dst' l' (rw same (Acked-rows s p i dst l l' r h))
