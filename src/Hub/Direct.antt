-- ===== src/Hub/Direct.antt =====
-- `DirectHubClient` of hub/direct.py: what the gateway worker asks of the hub, by calls on the ledger.
use things_team.Base.{ℕ, String, Option, List}
use things_team.Json.{Json}
use things_team.Hub.Schema.{RowId, Time, Ledger, Principal, Draws, Result}
use things_team.Hub.Push.{Receipt, push_transfer}
use things_team.Hub.Lease.{Entry, lease_deliveries}
use things_team.Hub.Ack.{AckReply, ack_delivery, nack_delivery}
use things_team.Hub.Observe.{Watch, watchlist, Observation, observe}

pub record DirectHubClient : Type 0 where
  pub principal : Principal
  pub lease_seconds : Time

-- `DEFAULT_LEASE_SECONDS`
abbrev pub direct_client : Principal → DirectHubClient
direct_client p = record { principal = p; lease_seconds = 300 }

module _ (c : DirectHubClient) where
  unfoldable pub direct_push :
      (String → String) → Draws → String → String → Json → ℕ → Ledger → Result Receipt
  direct_push normalize s to src_uuid payload rev l =
      push_transfer normalize s c.principal to src_uuid payload rev l

  unfoldable pub direct_deliveries : Time → ℕ → Ledger → Result (List Entry)
  direct_deliveries now limit l = lease_deliveries now c.principal limit c.lease_seconds l

  unfoldable pub direct_ack : Draws → RowId → Option String → Ledger → Result AckReply
  direct_ack s delivery_id dst_uuid l = ack_delivery s c.principal delivery_id dst_uuid l

  unfoldable pub direct_nack : Draws → RowId → String → Ledger → Result AckReply
  direct_nack s delivery_id error l = nack_delivery s c.principal delivery_id error l

  unfoldable pub direct_watch : Ledger → List Watch
  direct_watch l = watchlist c.principal l

  unfoldable pub direct_observe : Draws → RowId → String → Ledger → Result Observation
  direct_observe s transfer_id state l = observe s c.principal transfer_id state l
