-- ===== src/Hub/Server/Tests.antt =====
-- A bootstrap of the empty ledger.
use things_team.Base.{◌≡◌, refl, ℕ, ◌+◌, true, none, some, ◌∷◌, []}
use things_team.Base.Table.{find, any}
use things_team.Hub.Schema.{Ledger, Draws}
use things_team.Hub.Accounts.{create_tenant, create_member, insert_member, insert_device}
use things_team.Hub.Push.{member_by_handle}
use things_team.Hub.History.{empty}
use things_team.Hub.Http.{finished, on_ledger, ◌>>=◌, ledger_of}
use things_team.Hub.Server.{
  Spec, Deploy, each, wanted_hash, ensure_tenant, ensure_member, provide, ensure_device, bootstrap,
}
use things_team.Hub.Server.Settled.{bootstrap_twice}
use things_team.Hub.Sample.{draws, same}

abbrev deploy : Deploy
deploy = record { normalize = same; hash = same; credential = λ name. some name }

abbrev first_draws : ℕ → Draws
first_draws n = draws (100 + n) (10 + n) 0

abbrev later_draws : ℕ → Draws
later_draws n = draws (200 + n) (20 + n) 0

abbrev household : Spec
household = record {
  tenant = "home";
  members =
      record {
        handle = "ann";
        display_name = some "Ann";
        can_send = none;
        can_receive = none;
        admin = some true;
      }
      ∷ record {
        handle = "bob";
        display_name = none;
        can_send = none;
        can_receive = none;
        admin = none;
      }
      ∷ [];
  devices =
      record { member = "ann"; name = "mac"; token_credential = "ann-mac" }
      ∷ record { member = "bob"; name = "mac"; token_credential = "bob-mac" }
      ∷ [];
}

abbrev provisioned : Ledger
provisioned = ledger_of (bootstrap deploy first_draws household empty)

provisions : bootstrap deploy first_draws household empty ≡ finished tt provisioned
unfolding bootstrap ensure_tenant ensure_member ensure_device provide wanted_hash each on_ledger
    ◌>>=◌ create_tenant create_member insert_member insert_device member_by_handle find any
provisions = refl

bootstrap_twice_example :
    bootstrap deploy later_draws household provisioned ≡ finished tt provisioned
bootstrap_twice_example =
    bootstrap_twice deploy first_draws later_draws household empty provisioned (tt, tt)
      ((refl, tt), (tt, tt)) provisions
