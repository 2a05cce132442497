-- ===== src/Executive/Clients.antt =====
-- The Executive's clients of the memory service and of the salience gateway. A client that is not
-- connected has no stub. Each remote call may raise, and the client turns that into a plain answer.
use glady_s.Prelude.{ℕ, String, Bool, true, false, Option, none, some, List, [], ◌∷◌, ◌==◌}
use glady_s.Prelude.Tests.{if◌then◌else◌}
use glady_s.Prelude.Ints.{ℤ}
use glady_s.Event.{Score}
use glady_s.Json.{Fields}

-- A learned heuristic.
pub record Heuristic : Type 0 where
  pub id : String
  pub name : String
  pub condition_text : String
  pub effects_json : Fields
  pub confidence : Score
  pub origin : String
  pub origin_id : String
  pub created_at : ℕ
  pub source : String

-- The reply of a remote call, or the text of what it raised.
pub data Reply {ℓ} (A : Type ℓ) : Type ℓ where
  replied : A → Reply A
  broke : String → Reply A

pub record StoreReply : Type 0 where
  pub success : Bool
  pub heuristic_id : String
  pub error : String

pub record UpdateReply : Type 0 where
  pub success : Bool
  pub error : String
  pub old_confidence : Score
  pub new_confidence : Score

pub record EmbeddingReply : Type 0 where
  pub error : String
  pub embedding : List ℕ

-- An update as it is sent: simple, or with a magnitude and the source of the feedback.
pub record Update (F : Type 0) : Type 0 where
  pub heuristic_id : String
  pub positive : Bool
  pub weight : Option (F × String)

pub record MemoryStub (F : Type 0) : Type 0 where
  pub store : Heuristic → Reply StoreReply
  pub query : String → ℕ → Reply (List (String × ℤ))
  pub update : Update F → Reply UpdateReply
  pub embed : String → Reply EmbeddingReply

pub record MemoryClient (F : Type 0) : Type 0 where
  pub stub : Option (MemoryStub F)

pub record SalienceGatewayClient : Type 0 where
  pub notify : Option (String → String → Reply Bool)

-- The calls that change another service.
pub data Call (F : Type 0) : Type 0 where
  stores : Heuristic → Call F
  updates : Update F → Call F
  notifies : String → String → Call F

abbrev pub stored_as : Reply StoreReply → Bool × String
stored_as (broke e) = (false, e)
stored_as (replied r) = if r.success then (true, r.heuristic_id) else (false, r.error)

abbrev updated_as : Reply UpdateReply → UpdateReply
updated_as (broke e) = record { success = false; error = e; old_confidence = 0; new_confidence = 0 }
updated_as (replied r) =
    if r.success
    then record r { error = "" }
    else record r { old_confidence = 0; new_confidence = 0 }

abbrev embedded_as : Reply EmbeddingReply → Option (List ℕ)
embedded_as (broke e) = none
embedded_as (replied r) = if r.error == "" then some r.embedding else none

abbrev notified_as : Reply Bool → Bool
notified_as (broke e) = false
notified_as (replied success) = success

abbrev rows_of : Reply (List (String × ℤ)) → List (String × ℤ)
rows_of (broke e) = []
rows_of (replied rows) = rows

module _ {F : Type 0} where
  -- The answer of a call, and the call where there was a stub to make it.
  unfoldable pub store_heuristic : MemoryClient F → Heuristic → (Bool × String) × List (Call F)
  store_heuristic c h = elim c.stub [
    | none ↦ ((false, "Memory service not available"), [])
    | some stub ↦ (stored_as (stub.store h), stores h ∷ [])
  ]

  -- The minimum confidence is 0.
  unfoldable pub query_matches : MemoryClient F → String → ℕ → List (String × ℤ)
  query_matches c event_text limit = elim c.stub [
    | none ↦ []
    | some stub ↦ rows_of (stub.query event_text limit)
  ]

  unfoldable pub send_update : MemoryClient F → Update F → UpdateReply × List (Call F)
  send_update c u = elim c.stub [
    | none ↦ (
      record {
        success = false;
        error = "Memory service not available";
        old_confidence = 0;
        new_confidence = 0;
      },
      [],
    )
    | some stub ↦ (updated_as (stub.update u), updates u ∷ [])
  ]

  unfoldable pub update_confidence : MemoryClient F → String → Bool → UpdateReply × List (Call F)
  unfolding send_update
  update_confidence c id positive =
      send_update c (record { heuristic_id = id; positive = positive; weight = none })

  unfoldable pub update_confidence_weighted :
      MemoryClient F → String → Bool → F → String → UpdateReply × List (Call F)
  unfolding send_update
  update_confidence_weighted c id positive magnitude source =
      send_update c
        (record { heuristic_id = id; positive = positive; weight = some (magnitude, source) })

  unfoldable pub generate_embedding : MemoryClient F → String → Option (List ℕ)
  generate_embedding c s = elim c.stub [ none ↦ none | some stub ↦ embedded_as (stub.embed s) ]

  unfoldable pub notify_change : SalienceGatewayClient → String → String → Bool × List (Call F)
  notify_change c id change = elim c.notify [
    | none ↦ (false, [])
    | some send ↦ (notified_as (send id change), notifies id change ∷ [])
  ]
