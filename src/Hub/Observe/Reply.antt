-- ===== src/Hub/Observe/Reply.antt =====
-- The reply of `observe` and the state that it leaves.
use mathlib.Core.Option
use things_team.Base.{
  ◌≡◌, refl, sym, ap, subst, ◌∙◌, inl, inr, String, Bool, Option, none, some, List, arith, ◌==◌,
  ==-refl, if◌then◌else◌, Bool-cases,
}
use things_team.Base.Table.{find, any}
use things_team.Base.Table.Laws.{find-update, patch}
use things_team.Hub.Schema.{
  RowId, Terminal, completed, canceled, Transfer, Ledger, Principal, Draws, Result, ok,
}
use things_team.Hub.Rows.{find_transfer, event, signal_if}
use things_team.Hub.Ack.{resolved, resolve_transfer}
use things_team.Hub.Observe.{
  Observation, with_terminal, set_terminal, withdraw_cancel, is_done_cancel, queue_echo,
  observe_first, upgrade, observe_set, is_observable, parse_terminal, observe,
}
use things_team.Hub.Invariant.{transfer_in, IsValid}
use things_team.Hub.Invariant.Frame.{Changes-update}
use things_team.Hub.Invariant.ObserveSteps.{observable-found}
use things_team.Hub.History.Transfers.{queue_echo-transfers}

-- The rule of PROTOCOL.md: a terminal state is set once, but `completed` beats a `canceled` whose echo
-- is not done.
abbrev pub decided : Option Terminal → Terminal → Bool → Terminal
decided none x echoed = x
decided (some completed) x echoed = completed
decided (some canceled) canceled echoed = canceled
decided (some canceled) completed echoed = if echoed then canceled else completed

-- The transfer `i` has the terminal state `x`.
abbrev pub HasTerminal : RowId → Terminal → List Transfer → Type 0
HasTerminal i x ts = (t : Transfer) × (transfer_in i ts ≡ some t) × (t.terminal ≡ some x)

resolve-HasTerminal :
    (s : Draws) (i j : RowId) (x : Terminal) (l : Ledger)
    → HasTerminal i x l.transfers
    → HasTerminal i x (resolve_transfer s.now j l).transfers
unfolding resolve_transfer
resolve-HasTerminal s i j x l (t, h, e) = (
  patch (λ (u : Transfer). u.id == j) (resolved s.now) t,
  find-update (λ (u : Transfer). u.id == i) (λ (u : Transfer). u.id == j) (resolved s.now)
        l.transfers (λ u. refl)
      ∙ ap (Option.map (patch (λ (u : Transfer). u.id == j) (resolved s.now))) h,
  ground arith,
)

echo-HasTerminal :
    (s : Draws) (i : RowId) (x y : Terminal) (l : Ledger)
    → HasTerminal i x l.transfers
    → HasTerminal i x (queue_echo s i y l).1.transfers
echo-HasTerminal s i x y l (t, h, e) = elim (queue_echo-transfers s i y l h) [
  | inl same ↦ subst (HasTerminal i x) (sym same) (t, h, e)
  | inr moved ↦ subst (HasTerminal i x) (sym moved) (resolve-HasTerminal s i t.id x l (t, h, e))
]

module _ (s : Draws) (p : Principal) (i : RowId) (l : Ledger) {t : Transfer}
    (h : find_transfer i l ≡ some t) where
  set-HasTerminal : (x : Terminal) → HasTerminal i x (set_terminal x p.member_id i l).transfers
  unfolding set_terminal
  set-HasTerminal x = (
    with_terminal x p.member_id t,
    Changes-update i (with_terminal x p.member_id) l.transfers (λ y. refl) h i
        ∙ ap (λ b. if b then some (with_terminal x p.member_id t) else transfer_in i l.transfers)
            (==-refl i),
    refl,
  )

  -- What a reply says is what it leaves.
  Replies : Terminal → Result Observation → Type 0
  Replies x r =
      (o : Observation) × (l' : Ledger) × (r ≡ ok o l')
      × (o.terminal ≡ x)
      × HasTerminal i x l'.transfers

  observe_set-Replies :
      (o : Option Terminal) (x : Terminal)
      → t.terminal ≡ o
      → Replies (decided o x (any (is_done_cancel i) l.deliveries)) (observe_set s p i o x l)
  unfolding Replies observe_set observe_first upgrade withdraw_cancel event signal_if
  observe_set-Replies none x e = (_, _, refl, refl, echo-HasTerminal s i x x _ (set-HasTerminal x))
  observe_set-Replies (some completed) x e = (_, l, refl, refl, (t, h, e))
  observe_set-Replies (some canceled) canceled e = (_, l, refl, refl, (t, h, e))
  observe_set-Replies (some canceled) completed e =
      elim (Bool-cases (any (is_done_cancel i) l.deliveries)) [
        | inl late ↦ rw late (_, _, refl, refl, (t, h, e))
        | inr early ↦ rw early (
          _,
          _,
          refl,
          refl,
          echo-HasTerminal s i completed completed _ (set-HasTerminal completed),
        )
      ]

-- On a valid ledger, a report of a known state on a transfer that the caller is a party to returns,
-- and its reply is the terminal state that the transfer has right after the call: the one reported, if none
-- was set; the one set, but for `completed` in place of a `canceled` of which no echo is done.
pub observe_decides :
    (s : Draws) (p : Principal) (i : RowId) (state : String) (l : Ledger) {x : Terminal}
    {t : Transfer}
    → IsValid l
    → parse_terminal state ≡ some x
    → find (is_observable p i) l.transfers ≡ some t
    → (o : Observation) × (l' : Ledger) × (observe s p i state l ≡ ok o l')
      × (o.terminal ≡ decided t.terminal x (any (is_done_cancel i) l.deliveries))
      × HasTerminal i o.terminal l'.transfers
unfolding Replies observe
observe_decides s p i state l {x} {t} v known mine =
    let (o, l', e, d, a) =
      observe_set-Replies s p i l (observable-found p i l.transfers v.keys mine) t.terminal x
        refl in
    (o, l', rw (known, mine, observe) e, d, subst (λ y. HasTerminal i y l'.transfers) (sym d) a)
