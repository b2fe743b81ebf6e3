-- ===== src/Hub/Http/Ends.antt =====
-- What is known of code of a handler that has returned.
use things_team.Base.{◌≡◌, refl}
use things_team.Hub.Schema.{Ledger, Result, ok, err}
use things_team.Hub.Http.{Step, finished, fault, parked, Handler, committed, proceed}

-- Two steps in a row have ended where both have.
pub proceed-ends {ℓ κ} :
    {A : Type ℓ} {B : Type κ} (s : Step A) (k : A → Handler B) {b : B} {l : Ledger}
    → proceed s k ≡ finished b l
    → (a : A) × (l' : Ledger) × (s ≡ finished a l') × (k a l' ≡ finished b l)
proceed-ends (finished a l') k e = (a, l', refl, e)
proceed-ends (fault f l') k e = cc
proceed-ends (parked l') k e = cc

pub committed-ends {ℓ} :
    {A : Type ℓ} (l : Ledger) (r : Result A) {a : A} {l' : Ledger}
    → committed l r ≡ finished a l'
    → r ≡ ok a l'
committed-ends l (ok b l1) e = cc
committed-ends l (err x) e = cc

pub ended {ℓ} : {A : Type ℓ} {a b : A} (l l' : Ledger) → finished a l ≡ finished b l' → l ≡ l'
ended l l' e = cc
