-- ===== src/Hub/History/Evolution.antt =====
-- How one transfer may change: the state machine of PROTOCOL.md, as a relation on rows.
use things_team.Base.{
  ◌≡◌, sym, subst, ap, ◌∙◌, ◌⊎◌, inl, inr, true, Option, none, some, List, arith, ◌==◌,
  if◌then◌else◌, Bool-cases, ==→≡,
}
use things_team.Hub.Schema.{RowId, Time, Terminal, completed, canceled, Transfer}
use things_team.Hub.Ack.{some_terminal, resolved}
use things_team.Hub.Invariant.{transfer_in}
use things_team.Hub.Invariant.Frame.{Changes}

-- A column that is written once.
abbrev pub SetOnce {ℓ} : {A : Type ℓ} → Option A → Option A → Type ℓ
SetOnce o o' = (o ≡ none) ⊎ (o' ≡ o)

-- A terminal state is set once, but for `canceled`, which `completed` beats.
abbrev pub Advances : Option Terminal → Option Terminal → Type 0
Advances none o = Unit
Advances (some completed) o = o ≡ some completed
Advances (some canceled) o = some_terminal o ≡ true

-- The columns that a push writes stay, and the others go forward only.
pub record Evolves (t t' : Transfer) : Type 0 where
  pub id : t'.id ≡ t.id
  pub tenant : t'.tenant_id ≡ t.tenant_id
  pub sender : t'.from_member ≡ t.from_member
  pub recipient : t'.to_member ≡ t.to_member
  pub source : t'.src_uuid ≡ t.src_uuid
  pub revision : t'.rev ≡ t.rev
  pub payload : t'.payload ≡ t.payload
  pub created : t'.created_at ≡ t.created_at
  pub copy : SetOnce t.dst_uuid t'.dst_uuid
  pub applied_once : SetOnce t.applied_at t'.applied_at
  pub terminal : Advances t.terminal t'.terminal
  pub resolved_once : SetOnce t.resolved_at t'.resolved_at

pub Evolves-refl : (t : Transfer) → Evolves t t
Evolves-refl t = ground arith

pub Evolves-trans : (t u v : Transfer) → Evolves t u → Evolves u v → Evolves t v
Evolves-trans t u v h k = ground arith

pub resolved-Evolves : (now : Time) (t : Transfer) → Evolves t (resolved now t)
resolved-Evolves now t = ground arith

abbrev pub EvolvesIn : List Transfer → List Transfer → Type 0
EvolvesIn ts ts' =
    (i : RowId) (t : Transfer)
    → transfer_in i ts ≡ some t
    → (t' : Transfer) × (transfer_in i ts' ≡ some t') × Evolves t t'

pub EvolvesIn-refl : (ts : List Transfer) → EvolvesIn ts ts
EvolvesIn-refl ts i t h = (t, h, Evolves-refl t)

pub EvolvesIn-trans :
    (ts us vs : List Transfer) → EvolvesIn ts us → EvolvesIn us vs → EvolvesIn ts vs
EvolvesIn-trans ts us vs h k i t e =
    let (u, eu, tu) = h i t e in let (v, ev, uv) = k i u eu in (v, ev, Evolves-trans t u v tu uv)

-- One transfer has changed.
pub EvolvesIn-Changes :
    (j : RowId) (ts ts' : List Transfer) (u u' : Transfer)
    → transfer_in j ts ≡ some u
    → Changes j u' ts ts'
    → Evolves u u'
    → EvolvesIn ts ts'
EvolvesIn-Changes j ts ts' u u' hu c step i t h = elim (Bool-cases (i == j)) [
  | inl same ↦
      let at_j : transfer_in j ts ≡ some t = ap (λ k. transfer_in k ts) (sym (==→≡ i j same)) ∙ h in
      let old : u ≡ t = cc in
      (
        u',
        c i ∙ ap (λ b. if b then some u' else transfer_in i ts) same,
        subst (λ x. Evolves x u') old step,
      )
  | inr other ↦
      (t, c i ∙ ap (λ b. if b then some u' else transfer_in i ts) other ∙ h, Evolves-refl t)
]
