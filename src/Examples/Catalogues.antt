-- ===== src/Examples/Catalogues.antt =====
-- Agents are registered one after the other.
use project_os.Base.{
  String, ◌≡◌, refl, true, none, some, [], ◌∷◌, ok, raise, if◌then◌else◌, string_eq,
}
use project_os.Agents.{AgentDefinition, AgentRegistry, register, definition, output_key_taken}
use project_os.Agents.Distinct.{is_catalogue, register_lem}

abbrev agent : String → String → AgentDefinition
agent name output = record {
  id = name;
  domain = "notes";
  description = "Writes notes.";
  output_key = output;
  max_parallel_instances = 1;
  artifact_key = none;
}

-- A factory is named by a text here.
abbrev one : AgentRegistry String
one = record { definitions = ("a", agent "a" "x") ∷ []; factories = ("a", "A") ∷ [] }

abbrev two : AgentRegistry String
two = record {
  definitions = ("a", agent "a" "x") ∷ ("b", agent "b" "y") ∷ [];
  factories = ("a", "A") ∷ ("b", "B") ∷ [];
}

registered : register (agent "b" "y") "B" one ≡ ok two
unfolding register
registered = refl

output_refused : register (agent "b" "x") "B" one ≡ raise output_key_taken
unfolding register
output_refused = refl

register_lem_example :
    (is_catalogue two ≡ true)
    × (definition two "b" ≡ (if true then some (agent "b" "y") else definition one "b"))
register_lem_example = register_lem (agent "b" "y") "B" one "b" {registered = two} refl registered
