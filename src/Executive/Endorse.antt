-- ===== src/Executive/Endorse.antt =====
-- HeuristicFirstStrategy._process_llm_endorsements: an answer of the language model endorses the
-- candidates whose action is similar to it. Floats and their arithmetic are parameters.
use glady_s.Prelude.{
  ℕ, String, Bool, true, false, not, ◌||◌, Option, none, some, List, [], ◌∷◌, ◌++◌, ◌%◌,
}
use glady_s.Prelude.Tests.{nat_eq, if◌then◌else◌}
use glady_s.Prelude.Lists.{length}
use glady_s.Executive.{HeuristicCandidate, Endorsement}
use glady_s.Executive.Clients.{
  MemoryClient, SalienceGatewayClient, Call, UpdateReply, update_confidence_weighted,
  generate_embedding, notify_change,
}

-- `div` raises on a zero, and `unpack` is struct.unpack of floats of 32 bits, which may raise.
pub record Floats (F : Type 0) : Type 0 where
  pub zero : F
  pub add : F → F → F
  pub mul : F → F → F
  pub div : F → F → Option F
  pub sqrt : F → F
  pub is_zero : F → Bool
  pub at_least : F → F → Bool
  pub unpack : List ℕ → Option (List F)

abbrev is_empty : List ℕ → Bool
is_empty [] = true
is_empty (b ∷ bs) = false

abbrev ragged : List ℕ → Bool
ragged bs = not (nat_eq (length bs % 4) 0)

module _ {F : Type 0} where
  -- acc + sum(x * y for x, y in zip(xs, ys))
  unfoldable pub dot : Floats F → F → List F → List F → F
  dot fl acc [] ys = acc
  dot fl acc (x ∷ xs) [] = acc
  dot fl acc (x ∷ xs) (y ∷ ys) = dot fl (fl.add acc (fl.mul x y)) xs ys

  unfoldable pub norm : Floats F → List F → F
  unfolding dot
  norm fl xs = fl.sqrt (dot fl fl.zero xs xs)

  abbrev quotient : Floats F → F → F → F → Option F
  quotient fl product norm_a norm_b =
      if fl.is_zero norm_a || fl.is_zero norm_b
      then some fl.zero
      else fl.div product (fl.mul norm_a norm_b)

  abbrev similarity_of : Floats F → Option (List F) → Option (List F) → Option F
  similarity_of fl none ys = some fl.zero
  similarity_of fl (some xs) none = some fl.zero
  similarity_of fl (some xs) (some ys) =
      quotient fl (dot fl fl.zero xs ys) (norm fl xs) (norm fl ys)

  -- None where the last division raises.
  unfoldable pub cosine_similarity : Floats F → List ℕ → List ℕ → Option F
  unfolding dot norm
  cosine_similarity fl a b =
      if is_empty a || is_empty b
      then some fl.zero
      else if ragged a || ragged b
      then some fl.zero
      else similarity_of fl (fl.unpack a) (fl.unpack b)

-- The settings and the clients of the task.
pub record Endorser (F : Type 0) : Type 0 where
  pub floats : Floats F
  pub similarity_threshold : F
  pub boost_weight : F
  pub memory_client : MemoryClient F
  pub salience_client : Option SalienceGatewayClient

module _ {F : Type 0} where
  -- The gateway is told of an update that succeeded.
  abbrev pub notified : Option SalienceGatewayClient → String → List (Call F)
  notified none id = []
  notified (some c) id = (notify_change c id "updated").1

  abbrev pub after_update : Endorser F → String → UpdateReply × List (Call F) → List (Call F)
  after_update e id (reply, calls) =
      if reply.success then calls ++ notified e.salience_client id else calls

  abbrev pub is_endorsed : Endorser F → Option F → Bool
  is_endorsed e none = false
  is_endorsed e (some similarity) = e.floats.at_least similarity e.similarity_threshold

  abbrev pub with_similarity : Endorser F → String → Option F → List (Call F)
  with_similarity e id none = []
  with_similarity e id (some similarity) =
      if e.floats.at_least similarity e.similarity_threshold
      then after_update e id (
          update_confidence_weighted e.memory_client id true
            (e.floats.mul e.boost_weight similarity) "llm_endorsement")
      else []

  -- An embedding that is there and not empty.
  unfoldable pub embedding_of : Endorser F → String → Option (List ℕ)
  embedding_of e s = elim (generate_embedding e.memory_client s) [
    | none ↦ none
    | some [] ↦ none
    | some (b ∷ bs) ↦ some (b ∷ bs)
  ]

  -- What raises is caught for each candidate by itself.
  unfoldable pub endorse_candidate : Endorser F → List ℕ → HeuristicCandidate → List (Call F)
  unfolding embedding_of
  endorse_candidate e llm_embedding c = elim (embedding_of e c.suggested_action) [
    | none ↦ []
    | some own ↦ with_similarity e c.heuristic_id (cosine_similarity e.floats llm_embedding own)
  ]

  unfoldable pub endorse_all : Endorser F → List ℕ → List HeuristicCandidate → List (Call F)
  endorse_all e llm_embedding [] = []
  endorse_all e llm_embedding (c ∷ cs) =
      endorse_candidate e llm_embedding c ++ endorse_all e llm_embedding cs

  unfoldable pub process_llm_endorsements : Endorser F → Endorsement → List (Call F)
  unfolding embedding_of endorse_all
  process_llm_endorsements e (response, candidates) = elim (embedding_of e response) [
    | none ↦ []
    | some llm_embedding ↦ endorse_all e llm_embedding candidates
  ]
