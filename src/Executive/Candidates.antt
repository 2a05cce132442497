-- ===== src/Executive/Candidates.antt =====
-- The candidates of a request: the loop with a set of ids is the first suggestion of each id.
use glady_s.Prelude.{
  false, ◌||◌, inl, inr, ◌≡◌, refl, ap, ◌∙◌, sym, String, Bool, true, not, List, [], ◌∷◌, ◌++◌,
  ◌==◌, arith, eq_iff, Option, none, some,
}
use mathlib.Core.List.{append-nil, append_assoc}
use glady_s.Prelude.Tests.{if◌then◌else◌, Bool-cases}
use glady_s.Prelude.Lists.{keep}
use glady_s.Executive.{HeuristicCandidate}
use glady_s.Executive.Process.{
  HeuristicSuggestion, ProcessEventRequest, candidate_of, is_seen, suggested, add_candidate,
  add_candidates, candidates_of_request,
}

-- The suggestions that name a heuristic, the first of each name.
unfoldable pub firsts : List HeuristicSuggestion → List HeuristicCandidate
firsts [] = []
firsts (s ∷ ss) =
    let rest = firsts ss in
    if s.heuristic_id == ""
    then rest
    else candidate_of s
      ∷ keep (λ (c : HeuristicCandidate). not (c.heuristic_id == s.heuristic_id)) rest

abbrev unseen : List String → HeuristicCandidate → Bool
unseen seen c = not (is_seen seen c.heuristic_id)

keep-cons :
    (id : String) (seen : List String) (cs : List HeuristicCandidate)
    → keep (unseen (id ∷ seen)) cs
      ≡ keep (unseen seen) (keep (λ (c : HeuristicCandidate). not (c.heuristic_id == id)) cs)
keep-cons id seen [] = refl
keep-cons id seen (c ∷ cs) =
    ground (arith, eq_iff c.heuristic_id id, eq_iff id c.heuristic_id, keep-cons id seen cs)

if_cons :
    (c : HeuristicCandidate) {cs ds : List HeuristicCandidate} (b : Bool)
    → cs ≡ ds
    → (if b then c ∷ cs else cs) ≡ (if b then c ∷ ds else ds)
if_cons c b e = rw e refl

keep-seen :
    (id : String) (seen : List String) (cs : List HeuristicCandidate)
    → is_seen seen id ≡ true
    → keep (unseen seen) (keep (λ (c : HeuristicCandidate). not (c.heuristic_id == id)) cs)
      ≡ keep (unseen seen) cs
keep-seen id seen [] h = refl
keep-seen id seen (c ∷ cs) h = elim (Bool-cases (c.heuristic_id == id)) [
  | inl e ↦ rw (e, ap (is_seen seen) ((eq_iff c.heuristic_id id).0 e) ∙ h) (keep-seen id seen cs h)
  | inr e ↦ rw e (if_cons c (unseen seen c) (keep-seen id seen cs h))
]

skipped :
    (s : HeuristicSuggestion) (seen : List String) (cs : List HeuristicCandidate)
    → (s.heuristic_id == "" || is_seen seen s.heuristic_id) ≡ true
    → add_candidate s (seen, cs) ≡ (seen, cs)
unfolding add_candidate
skipped s seen cs h = rw h refl

pushed :
    (s : HeuristicSuggestion) (seen : List String) (cs : List HeuristicCandidate)
    → (s.heuristic_id == "" || is_seen seen s.heuristic_id) ≡ false
    → add_candidate s (seen, cs) ≡ (s.heuristic_id ∷ seen, cs ++ candidate_of s ∷ [])
unfolding add_candidate
pushed s seen cs h = rw h refl

add_candidates-firsts :
    (ss : List HeuristicSuggestion) (seen : List String) (cs : List HeuristicCandidate)
    → (add_candidates ss (seen, cs)).1 ≡ cs ++ keep (unseen seen) (firsts ss)
unfolding add_candidates add_candidate firsts
add_candidates-firsts [] seen cs = sym (append-nil cs)
add_candidates-firsts (s ∷ ss) seen cs = elim (Bool-cases (s.heuristic_id == "")) [
  | inl e ↦
      ap (λ c. (add_candidates ss c).1) (skipped s seen cs (rw e refl))
      ∙ rw e (add_candidates-firsts ss seen cs)
  | inr e ↦ elim (Bool-cases (is_seen seen s.heuristic_id)) [
    | inl d ↦
        ap (λ c. (add_candidates ss c).1) (skipped s seen cs (rw (e, d) refl))
        ∙ add_candidates-firsts ss seen cs
        ∙ rw (e, d) (ap (◌++◌ cs) (sym (keep-seen s.heuristic_id seen (firsts ss) d)))
    | inr d ↦
        ap (λ c. (add_candidates ss c).1) (pushed s seen cs (rw (e, d) refl))
        ∙ add_candidates-firsts ss (s.heuristic_id ∷ seen) (cs ++ candidate_of s ∷ [])
        ∙ append_assoc cs (candidate_of s ∷ []) _
        ∙ rw (e, d)
            (ap (λ rest. cs ++ candidate_of s ∷ rest) (keep-cons s.heuristic_id seen (firsts ss)))
  ]
]

-- The order of a request: the suggestion, then the candidates.
abbrev pub all_suggestions : ProcessEventRequest → List HeuristicSuggestion
all_suggestions r = elim r.suggestion [ none ↦ r.candidates | some s ↦ s ∷ r.candidates ]

keep_all : (cs : List HeuristicCandidate) → keep (unseen []) cs ≡ cs
keep_all [] = refl
keep_all (c ∷ cs) = ap (◌∷◌ c) (keep_all cs)

suggested-add_candidate :
    (s : HeuristicSuggestion) → suggested (some s) ([], []) ≡ add_candidate s ([], [])
unfolding add_candidate
suggested-add_candidate s = elim (Bool-cases (s.heuristic_id == "")) [
  | inl e ↦ rw e refl
  | inr e ↦ rw e refl
]

candidates_from :
    (o : Option HeuristicSuggestion) (ss : List HeuristicSuggestion)
    → (add_candidates ss (suggested o ([], []))).1 ≡ firsts (elim o [ none ↦ ss | some s ↦ s ∷ ss ])
unfolding add_candidates add_candidate firsts
candidates_from none ss = add_candidates-firsts ss [] [] ∙ keep_all (firsts ss)
candidates_from (some s) ss =
    ap (λ c. (add_candidates ss c).1) (suggested-add_candidate s)
    ∙ add_candidates-firsts (s ∷ ss) [] []
    ∙ keep_all (firsts (s ∷ ss))

-- The candidates of a request are those that a definition without a set gives: of the suggestion
-- and the candidates, in this order, the first of each id that is not empty.
pub candidates_of_request-firsts :
    (r : ProcessEventRequest) → candidates_of_request r ≡ firsts (all_suggestions r)
unfolding candidates_of_request
candidates_of_request-firsts r = candidates_from r.suggestion r.candidates
