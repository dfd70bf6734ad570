-- ===== src/Agents/Distinct.antt =====
-- The catalogue of agents has one agent for an id, and one for an output (app/agent/registry.py).
use project_os.Base.{
  String, ◌≡◌, refl, ap, ◌∙◌, subst, Bool, true, false, ◌&&◌, some, List, [], ◌∷◌, ◌++◌, map, ◌==◌,
  string_eq, elem, any, distinct, ok, >>-eq-ok, refuse_if, refuse_if-eq-ok, Dict, keys, has_key,
  insert, insert_fresh, lookup-insert, distinct-keys-insert, arith, if◌then◌else◌,
}
use project_os.Agents.{
  AgentDefinition, id_taken, output_key_taken, AgentRegistry, register, definition,
}

abbrev pub output_keys : Dict String AgentDefinition → List String
output_keys definitions = map (λ entry. entry.1.output_key) definitions

-- One agent for an id, and one for an output.
abbrev pub is_catalogue {ℓ} : {Factory : Type ℓ} → AgentRegistry Factory → Bool
is_catalogue registry =
    distinct (keys registry.definitions) && distinct (output_keys registry.definitions)

elem-output_keys :
    (key : String) (definitions : Dict String AgentDefinition)
    → elem key (output_keys definitions) ≡ any (λ entry. entry.1.output_key == key) definitions
elem-output_keys key [] = refl
elem-output_keys key ((name, definition) ∷ rest) = ground (
  arith,
  elem-output_keys key rest,
  string_eq.beq_iff key definition.output_key,
  string_eq.beq_iff definition.output_key key,
)

distinct-append :
    (given : AgentDefinition) (definitions : Dict String AgentDefinition)
    → elem given.output_key (output_keys definitions) ≡ false
    → distinct (output_keys definitions) ≡ true
    → distinct (output_keys (definitions ++ (given.id, given) ∷ [])) ≡ true
distinct-append given [] h d = refl
distinct-append given ((name, definition) ∷ rest) h d = ground (
  arith,
  distinct-append given rest,
  elem-end definition.output_key rest,
  string_eq.beq_iff given.output_key definition.output_key,
  string_eq.beq_iff definition.output_key given.output_key,
)
  where
    elem-end :
        (key : String) (rest : Dict String AgentDefinition)
        → elem key (output_keys (rest ++ (given.id, given) ∷ []))
          ≡ (if elem key (output_keys rest) then true else key == given.output_key)
    elem-end key [] = ground arith
    elem-end key (entry ∷ rest) = ground (arith, elem-end key rest)

-- Registering keeps the catalogue one, finds the new agent under its id, and changes what is found
-- under no other.
pub register_lem {ℓ} :
    {Factory : Type ℓ} (given : AgentDefinition) (factory : Factory)
    (registry : AgentRegistry Factory) (agent_id : String) {registered : AgentRegistry Factory}
    → is_catalogue registry ≡ true
    → register given factory registry ≡ ok registered
    → (is_catalogue registered ≡ true)
      × (definition registered agent_id
          ≡ (if agent_id == given.id then some given else definition registry agent_id))
unfolding register
register_lem given factory registry agent_id {registered} c h =
    let (a, h1) = >>-eq-ok (refuse_if (has_key given.id registry.definitions) id_taken) _ h in
    let taken = any (λ entry. entry.1.output_key == given.output_key) registry.definitions in
    let (b, h2) = >>-eq-ok (refuse_if taken output_key_taken) _ h1 in
    let fresh = refuse_if-eq-ok (has_key given.id registry.definitions) id_taken a in
    let unused =
      elem-output_keys given.output_key registry.definitions
      ∙ refuse_if-eq-ok taken output_key_taken b in
    let at_end =
      ap (λ d. distinct (output_keys d)) (insert_fresh given.id given registry.definitions fresh)
      ∙ distinct-append given registry.definitions unused (ground arith) in
    let ids = distinct-keys-insert given.id given registry.definitions (ground arith) in
    let found = lookup-insert given.id agent_id given registry.definitions in
    let same : record {
      definitions = insert given.id given registry.definitions;
      factories = insert given.id factory registry.factories;
    }
        ≡ registered =
      cc in
    subst
      (λ r.
        (is_catalogue r ≡ true)
        × (definition r agent_id
            ≡ (if agent_id == given.id then some given else definition registry agent_id)))
      same (ground arith, found)
