-- ===== src/Skills.antt =====
-- skill_registry.py: skill manifests, and the index of the skills and methods that provide a
-- capability. Values of the manifest that are only handed on are of any type.
pub mod Index
use glady_s.Prelude.{
  String, Bool, true, false, not, Option, none, some, List, [], ◌∷◌, ◌++◌, map, ◌==◌,
}
use glady_s.Prelude.Tests.{if◌then◌else◌}
use glady_s.Prelude.Lists.{keep, exists, first}
use glady_s.Prelude.Dict
use glady_s.Prelude.Dict.{Dict}
use glady_s.Outcome.{Outcome, returned, raised}

module _ (Data : Type 0) where
  pub record MethodInfo : Type 0 where
    pub name : String
    pub description : String
    pub capabilities : List String
    pub parameters : List Data
    pub returns : Dict Data

  pub record SkillInfo : Type 0 where
    pub plugin_id : String
    pub name : String
    pub version : String
    pub description : String
    pub category : String
    pub capabilities : List String
    pub methods : List MethodInfo
    pub activation : Dict Data

  pub record CapabilityMatch : Type 0 where
    pub skill_id : String
    pub skill_name : String
    pub method_name : String
    pub method_description : String
    pub capability : String
    pub parameters : List Data
    pub returns : Dict Data

  pub record SkillRegistry : Type 0 where
    pub skills : Dict SkillInfo
    -- capability to skill and method
    pub capability_index : Dict (List (String × String))

  -- The sections of a manifest as YAML has them; the defaults of missing lists and texts are empty.
  pub record PluginSection : Type 0 where
    pub id : Option String
    pub name : Option String
    pub version : Option String
    pub type : Option String
    pub description : String

  pub record SkillSection : Type 0 where
    pub category : String
    pub capabilities : List String
    pub methods : List MethodInfo
    pub activation : Dict Data

  pub record Manifest : Type 0 where
    pub plugin : Option PluginSection
    pub skill : SkillSection

abbrev pub listed : String → Dict (List (String × String)) → List (String × String)
listed cap index = elim (Dict.get cap index) [ none ↦ [] | some xs ↦ xs ]

module _ {Data : Type 0} where
  abbrev pub empty : SkillRegistry Data
  empty = record { skills = []; capability_index = [] }

  abbrev pub provides : String → MethodInfo Data → Bool
  provides cap m = exists (λ c. c == cap) m.capabilities

  -- The methods that provide the capability, or the skill without a method.
  abbrev pub entries : SkillInfo Data → String → List (String × String)
  entries s cap =
      if exists (provides cap) s.methods
      then map (λ (m : MethodInfo Data). (s.plugin_id, m.name)) (keep (provides cap) s.methods)
      else (s.plugin_id, "") ∷ []

  unfoldable pub index_capabilities :
      SkillInfo Data → List String → Dict (List (String × String)) → Dict (List (String × String))
  index_capabilities s [] index = index
  index_capabilities s (cap ∷ caps) index =
      index_capabilities s caps (Dict.put cap (listed cap index ++ entries s cap) index)

  unfoldable pub register_skill : SkillInfo Data → SkillRegistry Data → SkillRegistry Data
  register_skill s r = record {
    skills = Dict.put s.plugin_id s r.skills;
    capability_index = index_capabilities s s.capabilities r.capability_index;
  }

  abbrev skill_of :
      PluginSection Data → SkillSection Data → String → String → String → SkillInfo Data
  skill_of p s id name version = record {
    plugin_id = id;
    name = name;
    version = version;
    description = p.description;
    category = s.category;
    capabilities = s.capabilities;
    methods = s.methods;
    activation = s.activation;
  }

  abbrev checked :
      PluginSection Data
      → SkillSection Data
      → Option String
      → Option String
      → Option String
      → Option String
      → Outcome (SkillInfo Data)
  checked p s (some id) (some name) (some version) (some type) =
      if type == "skill" then returned (skill_of p s id name version) else raised
  checked p s none name version type = raised
  checked p s (some id) none version type = raised
  checked p s (some id) (some name) none type = raised
  checked p s (some id) (some name) (some version) none = raised

  abbrev skill_from : Manifest Data → Option (PluginSection Data) → Outcome (SkillInfo Data)
  skill_from raw none = raised
  skill_from raw (some p) = checked p raw.skill p.id p.name p.version p.type

  abbrev registered : SkillRegistry Data → Outcome (SkillInfo Data) → SkillRegistry Data × Bool
  registered r raised = (r, false)
  registered r (returned s) = (register_skill s r, true)

  -- True for a skill that was loaded; false where load_manifest raises.
  unfoldable pub load_manifest : Manifest Data → SkillRegistry Data → SkillRegistry Data × Bool
  unfolding register_skill
  load_manifest raw r = registered r (skill_from raw raw.plugin)

  abbrev method_match :
      SkillInfo Data → String → String → Option (MethodInfo Data) → CapabilityMatch Data
  method_match s name cap none = record {
    skill_id = s.plugin_id;
    skill_name = s.name;
    method_name = name;
    method_description = s.description;
    capability = cap;
    parameters = [];
    returns = [];
  }
  method_match s name cap (some m) = record {
    skill_id = s.plugin_id;
    skill_name = s.name;
    method_name = name;
    method_description = m.description;
    capability = cap;
    parameters = m.parameters;
    returns = m.returns;
  }

  abbrev pub match_of :
      Dict (SkillInfo Data) → String → String × String → List (CapabilityMatch Data)
  match_of skills cap (id, name) = elim (Dict.get id skills) [
    | none ↦ []
    | some s ↦
        method_match s name cap (first (λ (m : MethodInfo Data). m.name == name) s.methods) ∷ []
  ]

  abbrev pub matches_of :
      Dict (SkillInfo Data) → String → List (String × String) → List (CapabilityMatch Data)
  matches_of skills cap [] = []
  matches_of skills cap (x ∷ xs) = match_of skills cap x ++ matches_of skills cap xs

  unfoldable pub query_capability : String → SkillRegistry Data → List (CapabilityMatch Data)
  query_capability cap r = matches_of r.skills cap (listed cap r.capability_index)
