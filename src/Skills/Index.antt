-- ===== src/Skills/Index.antt =====
-- What the capability index lists after any manifests.
use mathlib.Core.List.{append_assoc, append-nil}
use glady_s.Prelude.{
  ◌≡◌, refl, sym, ap, ◌∙◌, inl, inr, String, List, [], ◌∷◌, ◌++◌, ◌==◌, eq_iff, arith,
}
use glady_s.Prelude.Tests.{Bool-cases, if◌then◌else◌}
use glady_s.Prelude.Dict
use glady_s.Prelude.Dict.{Dict, get-put}
use glady_s.Skills.{
  SkillInfo, SkillRegistry, entries, listed, index_capabilities, register_skill, empty, match_of,
  matches_of, query_capability,
}

listed-put :
    (cap c : String) (xs : List (String × String)) (index : Dict (List (String × String)))
    → listed cap (Dict.put c xs index) ≡ (if c == cap then xs else listed cap index)
listed-put cap c xs index = elim (Bool-cases (c == cap)) [
  | inl e ↦ rw (listed, get-put c cap xs index) (rw e refl)
  | inr e ↦ rw (listed, get-put c cap xs index) (rw e refl)
]

module _ {Data : Type 0} where
  -- The entries of one capability for a skill, once for each time that the skill lists it.
  abbrev pub provided : String → SkillInfo Data → List String → List (String × String)
  provided cap s [] = []
  provided cap s (c ∷ caps) =
      let later = provided cap s caps in if c == cap then entries s c ++ later else later

  unfoldable pub register_all : List (SkillInfo Data) → SkillRegistry Data → SkillRegistry Data
  register_all [] r = r
  register_all (s ∷ ss) r = register_all ss (register_skill s r)

  abbrev pub all_provided : String → List (SkillInfo Data) → List (String × String)
  all_provided cap [] = []
  all_provided cap (s ∷ ss) = provided cap s s.capabilities ++ all_provided cap ss

  listed-index_capabilities :
      (cap : String) (s : SkillInfo Data) (caps : List String)
      (index : Dict (List (String × String)))
      → listed cap (index_capabilities s caps index) ≡ listed cap index ++ provided cap s caps
  unfolding index_capabilities
  listed-index_capabilities cap s [] index = sym (append-nil (listed cap index))
  listed-index_capabilities cap s (c ∷ caps) index =
      listed-index_capabilities cap s caps (Dict.put c (listed c index ++ entries s c) index)
      ∙ rw (listed-put cap c (listed c index ++ entries s c) index) (elim (Bool-cases (c == cap)) [
        | inl e ↦
            let here : listed c index ≡ listed cap index =
              ap (λ k. listed k index) ((eq_iff c cap).0 e) in
            rw (e, here) (append_assoc (listed cap index) (entries s c) (provided cap s caps))
        | inr e ↦ rw e refl
      ])

  -- After any manifests the index lists for a capability what each of them provides, in the order of
  -- loading, behind what it listed before.
  pub listed-register_all :
      (cap : String) (ss : List (SkillInfo Data)) (r : SkillRegistry Data)
      → listed cap (register_all ss r).capability_index
        ≡ listed cap r.capability_index ++ all_provided cap ss
  unfolding register_all register_skill
  listed-register_all cap [] r = sym (append-nil (listed cap r.capability_index))
  listed-register_all cap (s ∷ ss) r =
      listed-register_all cap ss (register_skill s r)
      ∙ rw (listed-index_capabilities cap s s.capabilities r.capability_index) (
          append_assoc (listed cap r.capability_index) (provided cap s s.capabilities)
            (all_provided cap ss))

  matches_of-append :
      (skills : Dict (SkillInfo Data)) (cap : String) (xs ys : List (String × String))
      → matches_of skills cap (xs ++ ys) ≡ matches_of skills cap xs ++ matches_of skills cap ys
  matches_of-append skills cap [] ys = refl
  matches_of-append skills cap (x ∷ xs) ys =
      ap (◌++◌ (match_of skills cap x)) (matches_of-append skills cap xs ys)
      ∙ sym (
          append_assoc (match_of skills cap x) (matches_of skills cap xs)
            (matches_of skills cap ys))

  same_skills :
      (s : SkillInfo Data)
      → (register_all (s ∷ s ∷ []) empty).skills ≡ (register_all (s ∷ []) empty).skills
  unfolding register_all register_skill Dict.put
  same_skills s = ground (arith, eq_iff s.plugin_id s.plugin_id)

  listed_once :
      (cap : String) (s : SkillInfo Data)
      → listed cap (register_all (s ∷ []) empty).capability_index ≡ provided cap s s.capabilities
  unfolding Dict.get
  listed_once cap s =
      listed-register_all cap (s ∷ []) empty ∙ append-nil (provided cap s s.capabilities)

  listed_twice :
      (cap : String) (s : SkillInfo Data)
      → listed cap (register_all (s ∷ s ∷ []) empty).capability_index
        ≡ provided cap s s.capabilities ++ provided cap s s.capabilities
  unfolding Dict.get
  listed_twice cap s =
      listed-register_all cap (s ∷ s ∷ []) empty
      ∙ ap (◌++◌ (provided cap s s.capabilities)) (append-nil (provided cap s s.capabilities))

  -- A manifest that is loaded a second time doubles the answers to every query.
  pub query_capability-twice :
      (cap : String) (s : SkillInfo Data)
      → query_capability cap (register_all (s ∷ s ∷ []) empty)
        ≡ query_capability cap (register_all (s ∷ []) empty)
          ++ query_capability cap (register_all (s ∷ []) empty)
  unfolding query_capability
  query_capability-twice cap s =
      rw (same_skills s, listed_twice cap s, listed_once cap s)
        (matches_of-append (register_all (s ∷ []) empty).skills cap (provided cap s s.capabilities)
          (provided cap s s.capabilities))
