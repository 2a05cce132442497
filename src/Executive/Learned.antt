-- ===== src/Executive/Learned.antt =====
-- What positive feedback does: what it stores has passed the gate, what it reports is kept, and it
-- works once.
use glady_s.Prelude.Dict.{get_of_not-has, get-remove, Dict}
use glady_s.Prelude.{
  sym, ◌∙◌, ap, ◌≢◌, ◌∷◌, eq_iff, ◌⊎◌, suc, arith, ◌≡◌, refl, inl, inr, String, Bool, true, Option,
  none, some, List, [], ◌++◌, ◌==◌,
}
use glady_s.Prelude.Tests.{Bool-cases, Option-cases, if_both}
use glady_s.Prelude.Lists.{All, All-append}
use glady_s.Prelude.Dict
use glady_s.Outcome.{Outcome, returned, raised}
use glady_s.Json.{object}
use glady_s.Executive.{ReasoningTrace}
use glady_s.Executive.Traces.{delete_trace, get_trace}
use glady_s.Executive.Clients.{
  Update, MemoryStub, Reply, replied, broke, StoreReply, stored_as, send_update, update_confidence,
  store_heuristic, Heuristic, MemoryClient, Call, stores, updates, notifies,
}
use glady_s.Executive.Feedback.{
  trace_not_found, ExecutiveServicer, FeedbackChance, FeedbackAnswer, accepted, refused,
  provide_feedback, update_with, store_with, update_matched, learned, forget, create_heuristic,
}
use glady_s.Executive.Gate.{HasLength, IsAction}
use glady_s.Executive.Exits.{Result, provide_feedback_exits, merge_or_create_ends}

module _ {F : Type 0} where
  -- An update adds no heuristic.
  abbrev pub IsGated : Call F → Type 0
  IsGated (stores h) =
      HasLength h.condition_text × IsAction (object h.effects_json) × (h.confidence ≡ 300000)
  IsGated (updates u) = Unit
  IsGated (notifies id change) = Unit

  send_update-IsGated : (c : MemoryClient F) (u : Update F) → All IsGated (send_update c u).1
  unfolding send_update
  send_update-IsGated c u = elim (Option-cases c.stub) [
    | inl e ↦ rw (e, send_update) tt
    | inr (stub, e) ↦ rw (e, send_update) (tt, tt)
  ]

  update_with-IsGated :
      (client : Option (MemoryClient F)) (id : String) (positive : Bool)
      → All IsGated (update_with client id positive)
  unfolding update_confidence
  update_with-IsGated none id positive = tt
  update_with-IsGated (some c) id positive = send_update-IsGated c _

  update_matched-IsGated :
      (client : Option (MemoryClient F)) (id : Option String) (positive : Bool)
      → All IsGated (update_matched client id positive)
  unfolding update_matched
  update_matched-IsGated client none positive = tt
  update_matched-IsGated client (some id) positive =
      if_both (All IsGated) (id == "") tt (update_with-IsGated client id positive)

  store_with-IsGated :
      (client : Option (MemoryClient F)) (h : Heuristic)
      → IsGated (stores h)
      → All IsGated (store_with client h).1
  unfolding store_heuristic
  store_with-IsGated none h good = tt
  store_with-IsGated (some c) h good = elim (Option-cases c.stub) [
    | inl e ↦ rw (e, store_heuristic) tt
    | inr (stub, e) ↦ rw (e, store_heuristic) (good, tt)
  ]

-- Positive feedback sends no heuristic to the memory service that has not passed the quality gate,
-- and each that it sends has the confidence 0.3.
pub provide_feedback-IsGated :
    {F : Type 0} (chance : FeedbackChance) (id : String) (s : ExecutiveServicer F)
    → All IsGated (provide_feedback chance id true s).2
unfolding create_heuristic
provide_feedback-IsGated chance id s =
    provide_feedback_exits chance id s (λ r. All IsGated r.2) (λ r. tt) tt
      (λ t condition fs long good.
        merge_or_create_ends chance id t condition fs s (λ r. All IsGated r.2)
          (λ m. update_with-IsGated s.memory_client m true)
          (All-append IsGated _ _
            (update_matched-IsGated s.memory_client t.matched_heuristic_id true)
            (store_with-IsGated s.memory_client (learned chance t condition fs)
              (long, good, refl))))

get_trace-delete_trace :
    (id : String) (traces : Dict ReasoningTrace) → get_trace id (delete_trace id traces) ≡ none
unfolding get_trace delete_trace
get_trace-delete_trace id traces = elim (Bool-cases (Dict.has id traces)) [
  | inl e ↦ rw e (get-remove id id traces ∙ rw same refl)
  | inr e ↦ rw e (get_of_not-has id traces e)
]
  where
    same : (id == id) ≡ true
    same = ground (arith, eq_iff id id)

provide_feedback-forgets :
    {F : Type 0} (chance : FeedbackChance) (id : String) (s : ExecutiveServicer F)
    (created : String)
    → let (s', answer, calls) = provide_feedback chance id true s in
      answer ≡ returned (accepted created) → get_trace id s'.strategy.trace_store ≡ none
unfolding create_heuristic
provide_feedback-forgets chance id s created =
    provide_feedback_exits chance id s
      (λ r. r.1 ≡ returned (accepted created) → get_trace id r.0.strategy.trace_store ≡ none)
      (λ r e. absurd (ground arith)) (λ e. absurd (ground arith))
      (λ t condition fs long good.
        merge_or_create_ends chance id t condition fs s
          (λ r. r.1 ≡ returned (accepted created) → get_trace id r.0.strategy.trace_store ≡ none)
          (λ m e. get_trace-delete_trace id s.strategy.trace_store)
          (λ e. get_trace-delete_trace id s.strategy.trace_store))

provide_feedback_without :
    {F : Type 0} (chance : FeedbackChance) (id : String) (positive : Bool) (s : ExecutiveServicer F)
    → get_trace id s.strategy.trace_store ≡ none
    → provide_feedback chance id positive s ≡ (s, returned (refused trace_not_found), [])
unfolding provide_feedback
provide_feedback_without chance id positive s e = rw e refl

-- Positive feedback that was accepted is accepted once: any later feedback on the same answer, of
-- either sign, is refused because there is no trace, and it changes nothing and calls nothing.
pub provide_feedback-provide_feedback :
    {F : Type 0} (chance later : FeedbackChance) (id : String) (positive : Bool)
    (s : ExecutiveServicer F) (created : String)
    → (provide_feedback chance id true s).1 ≡ returned (accepted created)
    → let s' = (provide_feedback chance id true s).0 in
      provide_feedback later id positive s' ≡ (s', returned (refused trace_not_found), [])
provide_feedback-provide_feedback chance later id positive s created e =
    provide_feedback_without later id positive (provide_feedback chance id true s).0
      (provide_feedback-forgets chance id s created e)

-- The memory service was asked to store the heuristic, and replied that it did.
abbrev pub IsStored : {F : Type 0} → ExecutiveServicer F → Heuristic → List (Call F) → Type 0
IsStored {F = F} s h calls =
    (front : List (Call F)) × (calls ≡ front ++ stores h ∷ [])
    × (client : MemoryClient F) × (s.memory_client ≡ some client)
    × (stub : MemoryStub F) × (client.stub ≡ some stub)
    × (reply : StoreReply) × (stub.store h ≡ replied reply)
    × (reply.success ≡ true)

-- The counter counts the heuristic, and it is in the Executive's own store or the memory service
-- has stored it.
abbrev pub IsKept : {F : Type 0} → ExecutiveServicer F → Heuristic → Result F → Type 0
IsKept {F = F} s h (s', answer, calls) =
    (s'.heuristics_created ≡ suc s.heuristics_created)
    × ((s'.heuristic_store ≡ Dict.put h.id h s.heuristic_store) ⊎ IsStored s h calls)

stored_as-true :
    (x : Reply StoreReply)
    → (stored_as x).0 ≡ true
    → (reply : StoreReply) × (x ≡ replied reply) × (reply.success ≡ true)
stored_as-true (broke e) h = absurd (ground arith)
stored_as-true (replied reply) h = elim (Bool-cases reply.success) [
  | inl d ↦ (reply, refl, d)
  | inr d ↦ absurd (ground (arith, (rw d at h)))
]

-- A storing that counts as done was made by a client that is there, and the service confirmed it.
store_with-true :
    {F : Type 0} (client : Option (MemoryClient F)) (h : Heuristic)
    → (store_with client h).0.0 ≡ true
    → ((store_with client h).1 ≡ stores h ∷ [])
      × (c : MemoryClient F) × (client ≡ some c)
      × (stub : MemoryStub F) × (c.stub ≡ some stub)
      × (reply : StoreReply) × (stub.store h ≡ replied reply)
      × (reply.success ≡ true)
unfolding store_heuristic
store_with-true none h e = absurd (ground arith)
store_with-true (some c) h e = elim (Option-cases c.stub) [
  | inl d ↦ absurd (ground (arith, (rw (d, store_heuristic) at e)))
  | inr (stub, d) ↦
      let (reply, came, success) = stored_as-true (stub.store h) (rw (d, store_heuristic) at e) in
      (rw (d, store_heuristic) refl, c, refl, stub, d, reply, came, success)
]

create_heuristic-IsKept :
    {F : Type 0} (h : Heuristic) (s : ExecutiveServicer F) (front : List (Call F))
    (answer : Outcome FeedbackAnswer) (id : String)
    → IsKept s h (forget id (create_heuristic h s).0, answer, front ++ (create_heuristic h s).1)
unfolding create_heuristic
create_heuristic-IsKept h s front answer id = elim (Bool-cases (store_with s.memory_client h).0.0) [
  | inl e ↦
      let (calls, client, there, stub, connected, reply, came, success) =
        store_with-true s.memory_client h e in
      (
        refl,
        inr (front, ap (◌++◌ front) calls, client, there, stub, connected, reply, came, success),
      )
  | inr e ↦ (refl, inl (rw e refl))
]

abbrev created_id : Outcome FeedbackAnswer → String
created_id (returned (accepted id)) = id
created_id (returned (refused r)) = ""
created_id raised = ""

-- Where positive feedback reports a created heuristic by its new id, the counter goes up by one,
-- and a heuristic of this id that passed the quality gate is put into the Executive's own store, or
-- it was sent to the memory service, which replied that it stored it.
pub provide_feedback-IsKept :
    {F : Type 0} (chance : FeedbackChance) (id : String) (s : ExecutiveServicer F)
    → chance.heuristic_id ≢ ""
    → (provide_feedback chance id true s).1 ≡ returned (accepted chance.heuristic_id)
    → (h : Heuristic) × (h.id ≡ chance.heuristic_id)
      × IsGated {F = F} (stores h)
      × IsKept s h (provide_feedback chance id true s)
provide_feedback-IsKept {F = F} chance id s named =
    provide_feedback_exits chance id s Goal (λ r e. absurd (ground arith))
      (λ e. absurd (ground arith))
      (λ t condition fs long good.
        merge_or_create_ends chance id t condition fs s Goal
          (λ m e. absurd (named (sym (ap created_id e))))
          (λ e. (
            learned chance t condition fs,
            refl,
            (long, good, refl),
            create_heuristic-IsKept (learned chance t condition fs) s
                (update_matched s.memory_client t.matched_heuristic_id true)
                (returned (accepted chance.heuristic_id)) id,
          )))
  where
    Goal : Result F → Type 0
    Goal r =
        r.1 ≡ returned (accepted chance.heuristic_id)
        → (h : Heuristic) × (h.id ≡ chance.heuristic_id) × IsGated {F = F} (stores h) × IsKept s h r
