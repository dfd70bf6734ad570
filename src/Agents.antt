-- ===== src/Agents.antt =====
-- `AgentDefinition` and `AgentRegistry` (app/agent/registry.py): the catalogue of the agents. What a
-- factory makes is a parameter: the type of the factories.
pub mod Distinct
use project_os.Base.{
  ℕ, String, Bool, ◌||◌, Option, none, some, List, [], ◌∷◌, ◌==◌, string_eq, is_blank, ltb, any,
  Result, ok, raise, ◌>>=◌, ◌>>◌, refuse_if, Dict, lookup, has_key, insert,
}

pub record AgentDefinition : Type 0 where
  pub id : String
  pub domain : String
  pub description : String
  pub output_key : String
  pub max_parallel_instances : ℕ
  pub artifact_key : Option String

pub data AgentError : Type 0 where
  blank_field no_instances blank_artifact_key : AgentError
  id_taken output_key_taken : AgentError

-- AgentDefinition.__post_init__
unfoldable pub check_definition : AgentDefinition → Result AgentError (Unit {0})
check_definition definition = do
  refuse_if
      (is_blank definition.id
        || is_blank definition.domain
        || is_blank definition.description
        || is_blank definition.output_key)
      blank_field
  refuse_if (ltb definition.max_parallel_instances 1) no_instances
  elim definition.artifact_key [
    | none ↦ ok tt
    | some key ↦ refuse_if (is_blank key) blank_artifact_key
  ]

pub record AgentRegistry {ℓ} (Factory : Type ℓ) : Type ℓ where
  pub definitions : Dict String AgentDefinition
  pub factories : Dict String Factory

module _ {ℓ} {Factory : Type ℓ} where
  -- registry.definition(agent_id)
  abbrev pub definition : AgentRegistry Factory → String → Option AgentDefinition
  definition registry agent_id = lookup agent_id registry.definitions

  -- registry.register(definition, factory)
  unfoldable pub register :
      AgentDefinition → Factory → AgentRegistry Factory → Result AgentError (AgentRegistry Factory)
  register given factory registry = do
    refuse_if (has_key given.id registry.definitions) id_taken
    refuse_if (any (λ entry. entry.1.output_key == given.output_key) registry.definitions)
        output_key_taken
    ok (record {
      definitions = insert given.id given registry.definitions;
      factories = insert given.id factory registry.factories;
    })
