-- ===== src/Hub/Invariant.antt =====
-- The invariant of the two tables that carry a delegation, transfers and deliveries, in the terms of
-- DESIGN.md and PROTOCOL.md: every delivery fits its transfer, no two rows clash, and what a
-- transfer still waits for is queued.
pub mod Frame
pub mod Deliveries
pub mod Ack
pub mod AckSteps
pub mod Push
pub mod Lease
pub mod Observe
pub mod ObserveSteps
use things_team.Base.{
  ◌≡◌, refl, Bool, true, false, not, ◌&&◌, ◌||◌, Option, none, some, List, ◌==◌, if◌then◌else◌,
}
use things_team.Base.Table.{find, any}
use things_team.Base.Table.Laws.{All}
use things_team.Base.Table.Distinct.{Distinct}
use things_team.Hub.Schema.{
  RowId, Terminal, completed, canceled, Kind, create, complete, cancel, Transfer, Delivery, Ledger,
  Draws, Result, after,
}
use things_team.Hub.Rows.{eq_terminal, eq_kind, is_done, is_null, has_text, collides}
use things_team.Hub.Ack.{some_terminal}
use things_team.Hub.Observe.{is_party, is_create_of}
use things_team.Hub.Push.{clashes}

abbrev pub transfer_in : RowId → List Transfer → Option Transfer
transfer_in i ts = find (λ t. t.id == i) ts

abbrev pub is_terminal : Terminal → Option Terminal → Bool
is_terminal x none = false
is_terminal x (some y) = eq_terminal x y

-- An echo of the terminal state `x`: it goes to a party, and the transfer is resolved once it is done.
abbrev pub fits_echo : Terminal → Transfer → Delivery → Bool
fits_echo x t d =
    is_terminal x t.terminal
    && is_party d.to_member t
    && (if is_done d.state then not (is_null t.resolved_at) else true)

-- The create delivery goes to the recipient, who has a copy, or never gets one, once it is done.
abbrev pub fits_create : Transfer → Delivery → Bool
fits_create t d =
    d.to_member == t.to_member
    && (if is_done d.state
        then has_text t.dst_uuid || not (is_null t.resolved_at)
        else is_null t.dst_uuid)

abbrev pub fits_kind : Kind → Transfer → Delivery → Bool
fits_kind create t d = fits_create t d
fits_kind complete t d = fits_echo completed t d
fits_kind cancel t d = fits_echo canceled t d

abbrev pub fits : Option Transfer → Delivery → Bool
fits none d = false
fits (some t) d = fits_kind d.kind t d

abbrev pub Fit : List Transfer → Delivery → Type 0
Fit ts d = fits (transfer_in d.transfer_id ts) d ≡ true

-- The parties differ, a stored `dst_uuid` is not empty, and only a terminal transfer is resolved.
abbrev pub is_sound : Transfer → Bool
is_sound t =
    not (t.from_member == t.to_member)
    && (is_null t.dst_uuid || has_text t.dst_uuid)
    && (some_terminal t.terminal || is_null t.resolved_at)

-- The transfer is not resolved, and it is not applied yet or has a terminal state, which then waits for its
-- echo. An unresolved transfer that is applied and open waits for nothing of the hub.
abbrev pub is_waiting : Transfer → Bool
is_waiting t = is_null t.resolved_at && (some_terminal t.terminal || is_null t.dst_uuid)

-- A delivery of `t` that is not done, and whose addressee has, or is to get, a copy to act on.
abbrev pub is_deliverable : Transfer → Delivery → Bool
is_deliverable t d =
    d.transfer_id == t.id
    && not (is_done d.state)
    && (eq_kind d.kind create || d.to_member == t.from_member || has_text t.dst_uuid)

-- A transfer has its create delivery, and what it waits for is among the deliveries.
pub record Serves (t : Transfer) (ds : List Delivery) : Type 0 where
  pub sound : is_sound t ≡ true
  pub created : any (is_create_of t.id) ds ≡ true
  pub served : is_waiting t ≡ true → any (is_deliverable t) ds ≡ true

pub record Tables (ts : List Transfer) (ds : List Delivery) : Type 0 where
  pub keys : Distinct clashes ts
  pub fit : All (Fit ts) ds
  pub distinct : Distinct collides ds
  pub serves : (i : RowId) (t : Transfer) → transfer_in i ts ≡ some t → Serves t ds

abbrev pub IsValid : Ledger → Type 0
IsValid l = Tables l.transfers l.deliveries

-- The id that a call draws for a delivery is new.
abbrev pub Fresh : Draws → Ledger → Type 0
Fresh s l = any (λ d. d.id == s.delivery) l.deliveries ≡ false

-- Both branches of a call keep the invariant.
pub IsValid-if {ℓ} :
    {A : Type ℓ} (l : Ledger) (b : Bool) (x y : Result A)
    → (b ≡ true → IsValid (after l x))
    → (b ≡ false → IsValid (after l y))
    → IsValid (after l (if b then x else y))
IsValid-if l true x y h k = h refl
IsValid-if l false x y h k = k refl
