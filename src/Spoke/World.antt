-- ===== src/Spoke/World.antt =====
-- What a spoke works with, as spoke/core.py lists it in the docstring of `SpokeCore`: a reader of the Things
-- database, a writer, a client of the hub, and the clock. `W` is the state of all that is not the
-- spoke's own.
use things_team.Base.{ℕ, String, Bool, Option, List}
use things_team.Json.{Json}
use things_team.Exec.{Reply, Exec, outcome, finished}
use things_team.Hub.Schema.{RowId, Time, Terminal}
use things_team.Hub.Lease.{Entry}
use things_team.Hub.Observe.{Watch}
use things_team.Spoke.State.{SpokeState}
use things_team.Spoke.Outbound.{Candidate, PushHub}

abbrev pub Op {ℓ κ} : Type ℓ → Type κ → Type (ℓ ⊔ κ)
Op W A = W → Reply A × W

-- The names of `_STATUS_NAMES`
pub data TaskStatus : Type 0 where
  open_task completed_task canceled_task : TaskStatus

-- What the reader's `status` returns for a task that is there.
pub record Status : Type 0 where
  pub status : TaskStatus
  pub trashed : Bool

pub record Reader {ℓ} (W : Type ℓ) : Type ℓ where
  pub refresh : Op W (Unit {0})
  pub outbound_candidates : List String → Op W (List Candidate)
  pub status : String → Op W (Option Status)
  pub correlate : String → Time → String → List String → Op W (Option String)
  pub tags_of : String → Op W (Option (List String))

-- `create` has the idempotency key, the id of the delivery, last.
pub record Writer {ℓ} (W : Type ℓ) : Type ℓ where
  pub create : Json → String → RowId → Op W (Unit {0})
  pub set_terminal : String → Terminal → Op W Bool
  pub set_tags_and_terminal : String → List String → Terminal → Op W Bool

pub record HubClient {ℓ} (W : Type ℓ) : Type ℓ where
  pub push_transfer : PushHub W
  pub deliveries : ℕ → Op W (List Entry)
  pub ack : RowId → Option String → Op W (Unit {0})
  pub nack : RowId → String → Op W (Unit {0})
  pub watch : Op W (List Watch)
  pub observe : RowId → Terminal → Op W (Unit {0})

-- `time.time()` and `time.sleep`
pub record Clock {ℓ} (W : Type ℓ) : Type ℓ where
  pub now : W → Time × W
  pub sleep : Time → W → W

pub record World {ℓ} (W : Type ℓ) : Type ℓ where
  pub reader : Reader W
  pub writer : Writer W
  pub hub : HubClient W
  pub clock : Clock W

-- The spoke's own state and the rest.
pub record Spoke {ℓ} (W : Type ℓ) : Type ℓ where
  pub memory : SpokeState
  pub world : W

module _ {ℓ} {W : Type ℓ} where
  -- A call of the reader, the writer or the hub.
  unfoldable pub ask {κ} : {A : Type κ} → Op W A → Exec (Spoke W) A
  ask op s = let (r, w) = op s.world in (outcome r, record s { world = w })

  unfoldable pub time_of : (W → Time × W) → Exec (Spoke W) Time
  time_of now s = let (t, w) = now s.world in (finished t, record s { world = w })

  unfoldable pub pause : (W → W) → Exec (Spoke W) (Unit {0})
  pause sleep s = (finished tt, record s { world = sleep s.world })

  -- The methods of `SpokeState` that read, and those that write.
  unfoldable pub recall {κ} : {A : Type κ} → (SpokeState → A) → Exec (Spoke W) A
  recall f s = (finished (f s.memory), s)

  unfoldable pub note : (SpokeState → SpokeState) → Exec (Spoke W) (Unit {0})
  note f s = (finished tt, record s { memory = f s.memory })
