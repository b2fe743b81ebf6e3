-- ===== src/Hub/Server/Entries.antt =====
-- Loops over the entries of the declaration.
use things_team.Base.{◌≡◌, refl, sym, subst, ap, ◌∙◌, ℕ, suc, List, [], ◌∷◌}
use things_team.Base.Table.Laws.{All}
use things_team.Base.Table.Exists.{All-always}
use things_team.Hub.Schema.{Ledger, Draws}
use things_team.Hub.Http.{finished, Handler, ◌>>=◌}
use things_team.Hub.Http.Ends.{proceed-ends, ended}
use things_team.Hub.Server.{each}

abbrev pub Pairwise {ℓ} : {A : Type ℓ} → (A → A → Type 0) → List A → Type 0
Pairwise P [] = Unit
Pairwise P (a ∷ as') = All (P a) as' × Pairwise P as'

-- A loop in which each step makes its own entry good, and keeps the others good.
module _ {ℓ} {A : Type ℓ} (f : Draws → A → Handler (Unit {0})) (Fine : Ledger → Type 0)
    (Good : A → Ledger → Type 0) (Apart : A → A → Type 0)
    (makes : (s : Draws) (a : A) (l l' : Ledger)
      → Fine l
      → f s a l ≡ finished tt l'
      → Fine l' × Good a l')
    (keeps : (s : Draws) (a b : A) (l l' : Ledger)
      → Apart a b
      → Fine l
      → Good a l
      → f s b l ≡ finished tt l'
      → Good a l') where
  each-keeps :
      (s : ℕ → Draws) (n : ℕ) (a : A) (bs : List A) (l l' : Ledger)
      → All (Apart a) bs
      → Fine l
      → Good a l
      → each f s n bs l ≡ finished tt l'
      → Good a l'
  unfolding each ◌>>=◌
  each-keeps s n a [] l l' p v g e = subst (Good a) (ended l l' e) g
  each-keeps s n a (b ∷ bs) l l' p v g e =
      let (u, l1, e1, e2) = proceed-ends (f (s n) b l) _ e in
      each-keeps s (suc n) a bs l1 l' p.1 (makes (s n) b l l1 v e1).0
        (keeps (s n) a b l l1 p.0 v g e1) e2

  pub each-makes :
      (s : ℕ → Draws) (n : ℕ) (as' : List A) (l l' : Ledger)
      → Pairwise Apart as'
      → Fine l
      → each f s n as' l ≡ finished tt l'
      → Fine l' × All (λ a. Good a l') as'
  unfolding each ◌>>=◌
  each-makes s n [] l l' p v e = (subst Fine (ended l l' e) v, tt)
  each-makes s n (a ∷ as') l l' p v e =
      let (u, l1, e1, e2) = proceed-ends (f (s n) a l) _ e in
      let (v1, g1) = makes (s n) a l l1 v e1 in
      let (v', gs) = each-makes s (suc n) as' l1 l' p.1 v1 e2 in
      (v', (each-keeps s (suc n) a as' l1 l' p.0 v1 g1 e2, gs))

-- A loop over good entries does nothing.
pub each-idle {ℓ} :
    {A : Type ℓ} (f : Draws → A → Handler (Unit {0})) (Good : A → Ledger → Type 0) (s : ℕ → Draws)
    (n : ℕ) (as' : List A) (l : Ledger)
    → ((s : Draws) (a : A) → Good a l → f s a l ≡ finished tt l)
    → All (λ a. Good a l) as'
    → each f s n as' l ≡ finished tt l
unfolding each ◌>>=◌
each-idle f Good s n [] l h g = refl
each-idle f Good s n (a ∷ as') l h g = rw (h (s n) a g.0) (each-idle f Good s (suc n) as' l h g.1)

-- What no step changes
pub each-same {ℓ κ} :
    {A : Type ℓ} {X : Type κ} (f : Draws → A → Handler (Unit {0})) (g : Ledger → X) (s : ℕ → Draws)
    (n : ℕ) (as' : List A) (l l' : Ledger)
    → ((s : Draws) (a : A) (l l' : Ledger) → f s a l ≡ finished tt l' → g l' ≡ g l)
    → each f s n as' l ≡ finished tt l'
    → g l' ≡ g l
unfolding each ◌>>=◌
each-same f g s n [] l l' h e = sym (ap g (ended l l' e))
each-same f g s n (a ∷ as') l l' h e =
    let (u, l1, e1, e2) = proceed-ends (f (s n) a l) _ e in
    each-same f g s (suc n) as' l1 l' h e2 ∙ h (s n) a l l1 e1

pub Pairwise-always {ℓ} :
    {A : Type ℓ} (P : A → A → Type 0) (as' : List A) → ((a b : A) → P a b) → Pairwise P as'
Pairwise-always P [] h = tt
Pairwise-always P (a ∷ as') h = (All-always (P a) as' (h a), Pairwise-always P as' h)
