-- ===== src/Spoke/Local/Checked.antt =====
-- What the mirror showed when an update is called verified.
use things_team.Base.{
  ◌≡◌, refl, subst, ℕ, String, Bool, true, false, Option, none, some, List, if◌then◌else◌,
}
use things_team.Json.Access.{Texts}
use things_team.Exec.{
  Exec, Reply, returned, failed, Outcome, outcome, finished, raised, unfinished, pure, branch,
}
use things_team.Exec.Gives.{
  Gives, Holds, Found, Gives-pure, Gives-attempt, Gives-after, Gives-bind, Gives-then,
  loop_until-Gives,
}
use things_team.Hub.Schema.{Terminal}
use things_team.Spoke.World.{Op, Status}
use things_team.Spoke.Call.{call}
use things_team.Spoke.Focus.{Mac, LocalSettings, LocalWriter, inner}
use things_team.Spoke.Local.{
  shows, same_set, or_no_tags, verify_test, verify_loop, verify, check_state, check_tags,
  check_both, set_terminal, set_tags_and_terminal,
}

-- The reader's `status` has just shown the state, or its `tags_of` the tags: the writer is left in the state after that call.
pub record Showed {ℓ} {W : Type ℓ} (mac : Mac W) (u : String) (x : Terminal) (s : LocalWriter W)
    : Type ℓ where
  pub before : W
  pub status : Option Status
  pub read : mac.reader.status u before ≡ (returned status, s.world)
  pub shown : shows x status ≡ true

pub record Tagged {ℓ} {W : Type ℓ} (mac : Mac W) (u : String) (tags : List String) (w : W)
    : Type ℓ where
  pub before : W
  pub found : Option (List String)
  pub read : mac.reader.tags_of u before ≡ (returned found, w)
  pub same : same_set (or_no_tags found) tags ≡ true

-- What is known of a check that returned true
abbrev Yes {ℓ κ} : {S : Type ℓ} → (S → Type κ) → Bool → S → Type κ
Yes P true s = P s
Yes P false s = Unit

module _ {ℓ} {W : Type ℓ} (mac : Mac W) (texts : Texts) (c : LocalSettings) where
  module _ {κ} (P : LocalWriter W → Type κ) (check : Exec (LocalWriter W) Bool)
      (sound : Gives (Yes P) check) where
    test-Gives : (u : Unit {0}) → Gives (Found (Yes P)) (verify_test mac texts c check u)
    unfolding verify_test pure
    test-Gives u = Gives-then _ _ _ (
        Gives-attempt _ _ _
          (Gives-after (Yes P) (Found (Yes P)) check _ sound (λ b s y. known b s y))
          (λ e. Gives-pure _ none (λ s. tt)))
      where
        known :
            (b : Bool) (s : LocalWriter W)
            → Yes P b s
            → Found (Yes P) (if b then some true else none) s
        known true s y = y
        known false s y = tt

    verify-Gives : (fuel : ℕ) → Gives (Yes P) (verify mac texts c fuel check)
    unfolding verify verify_loop
    verify-Gives fuel = Gives-bind _ _ _ (λ now.
        loop_until-Gives (Yes P) _ _ _ _ _ (λ u. Gives-pure _ false (λ s. tt)) test-Gives fuel tt)

  -- `op` has just given `a`.
  abbrev Read {κ} : {A : Type κ} → Op W A → A → LocalWriter W → Type (ℓ ⊔ κ)
  Read op a s = (b : W) × (op b ≡ (returned a, s.world))

  Read-Gives {κ} : {A : Type κ} (op : Op W A) → Gives (Read op) (inner (call op))
  unfolding inner call
  Read-Gives {A} op = record { at = λ s. reply (op s.world).0 s refl }
    where
      reply :
          (r : Reply A) (s : LocalWriter W)
          → (op s.world).0 ≡ r
          → Holds (Read op) (outcome r) (record s { world = (op s.world).1 })
      reply (returned a) s e = (s.world, λ i. (e i, (op s.world).1))
      reply (failed x) s e = tt

  state_sound :
      (u : String) (x : Terminal) → Gives (Yes (Showed mac u x)) (check_state mac texts c u x)
  unfolding check_state pure
  state_sound u x =
      Gives-after (Read (mac.reader.status u)) _ _ _ (Read-Gives (mac.reader.status u))
        (λ o s r. shown o s r (shows x o) refl)
    where
      shown :
          (o : Option Status) (s : LocalWriter W)
          → Read (mac.reader.status u) o s
          → (b : Bool) → shows x o ≡ b
          → Yes (Showed mac u x) b s
      shown o s (w, e) true h = record { before = w; status = o; read = e; shown = h }
      shown o s (w, e) false h = tt

  tags_sound :
      (u : String) (tags : List String)
      → Gives (Yes (λ s. Tagged mac u tags s.world)) (check_tags mac texts c u tags)
  unfolding check_tags pure
  tags_sound u tags =
      Gives-after (Read (mac.reader.tags_of u)) _ _ _ (Read-Gives (mac.reader.tags_of u))
        (λ o s r. same o s r (same_set (or_no_tags o) tags) refl)
    where
      same :
          (o : Option (List String)) (s : LocalWriter W)
          → Read (mac.reader.tags_of u) o s
          → (b : Bool) → same_set (or_no_tags o) tags ≡ b
          → Yes (λ s. Tagged mac u tags s.world) b s
      same o s (w, e) true h = record { before = w; found = o; read = e; same = h }
      same o s (w, e) false h = tt

  -- The tags were read first, then the state.
  abbrev pub Both : String → List String → Terminal → LocalWriter W → Type ℓ
  Both u tags x s = ((w : W) × Tagged mac u tags w) × Showed mac u x s

  Both-sound :
      (u : String) (tags : List String) (x : Terminal)
      → Gives (Yes (Both u tags x)) (check_both mac texts c u tags x)
  unfolding check_both branch pure
  Both-sound u tags x =
      Gives-after (Yes (λ s. Tagged mac u tags s.world)) _ _ _ (tags_sound u tags) then_state
    where
      with_tags :
          (w : W) (t : Tagged mac u tags w) (r : Outcome Bool) (s : LocalWriter W)
          → Holds (Yes (Showed mac u x)) r s
          → Holds (Yes (Both u tags x)) r s
      with_tags w t (finished true) s h = ((w, t), h)
      with_tags w t (finished false) s h = tt
      with_tags w t (raised e) s h = tt
      with_tags w t unfinished s h = tt

      then_state :
          (b : Bool) (s : LocalWriter W)
          → Yes (λ s. Tagged mac u tags s.world) b s
          → let r = branch b (check_state mac texts c u x) (pure false) s in
            Holds (Yes (Both u tags x)) r.0 r.1
      then_state true s t = with_tags s.world t _ _ ((state_sound u x).at s)
      then_state false s t = tt

  given {κ} :
      (P : LocalWriter W → Type κ) (m : Exec (LocalWriter W) Bool) {s s' : LocalWriter W}
      → Gives (Yes P) m
      → m s ≡ (finished true, s')
      → P s'
  given P m {s} g e = subst (λ (r : Outcome Bool × LocalWriter W). Holds (Yes P) r.0 r.1) e (g.at s)

  -- Where `set_terminal` says that it is verified, the last thing it did was a call of the reader, which
  -- showed the copy in the state asked for.
  pub set_terminal_verified :
      (fuel : ℕ) (u : String) (x : Terminal) (s s' : LocalWriter W)
      → set_terminal mac texts c fuel u x s ≡ (finished true, s')
      → Showed mac u x s'
  unfolding set_terminal
  set_terminal_verified fuel u x s s' e =
      given (Showed mac u x) _
        (Gives-then _ _ _ (verify-Gives _ (check_state mac texts c u x) (state_sound u x) fuel)) e

  -- Where `set_tags_and_terminal` says that it is verified, the reader showed a copy with just the tags
  -- asked for, in any order, and its last call showed it in the state asked for.
  pub set_tags_and_terminal_verified :
      (fuel : ℕ) (u : String) (tags : List String) (x : Terminal) (s s' : LocalWriter W)
      → set_tags_and_terminal mac texts c fuel u tags x s ≡ (finished true, s')
      → Both u tags x s'
  unfolding set_tags_and_terminal
  set_tags_and_terminal_verified fuel u tags x s s' e =
      given (Both u tags x) _
        (Gives-then _ _ _
          (verify-Gives _ (check_both mac texts c u tags x) (Both-sound u tags x) fuel))
        e
