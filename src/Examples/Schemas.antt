-- ===== src/Examples/Schemas.antt =====
-- Two versions of a registry with one model.
use project_os.Base.{
  ℕ, String, ◌≡◌, refl, Bool, true, false, Option, none, some, [], ◌∷◌, Memᴰ, string_eq, raise,
}
use project_os.Schema.{
  FieldType, FieldSchema, ModelSchema, SchemaRegistry, SchemaError, repeated_model, check_registry,
  get_model,
}
use project_os.Schema.Evolution.{
  compare_fields, compare_models, compare_registries, has_breaking_changes,
}
use project_os.Schema.Compatible.{ModelKeeps, compare_registries-ModelKeeps}

abbrev text_field : String → Bool → Option ℕ → Option ℕ → FieldSchema
text_field name optional least most = record {
  name = name;
  field_type = FieldType.string;
  optional = optional;
  max_length = most;
  min_length = least;
}

abbrev task : ModelSchema
task = record {
  name = "Task";
  fields = text_field "title" false (some 1) (some 200) ∷ [];
  phase = "architecture";
  description = "";
}

-- The title may be longer, and there is a note.
abbrev longer : ModelSchema
longer = record task {
  fields = text_field "title" false (some 1) (some 300) ∷ text_field "note" true none none ∷ [];
}

abbrev registry_of : ModelSchema → SchemaRegistry
registry_of m = record { models = m ∷ []; version = "1.0" }

no_break : has_breaking_changes (compare_registries (registry_of task) (registry_of longer)) ≡ false
unfolding has_breaking_changes compare_registries compare_models compare_fields
no_break = refl

compare_registries-ModelKeeps_example :
    (n : ModelSchema) × (get_model "Task" (registry_of longer) ≡ some n) × ModelKeeps task n
compare_registries-ModelKeeps_example =
    compare_registries-ModelKeeps (registry_of task) (registry_of longer) no_break task
      (Memᴰ.head refl)

-- The title may no longer be as long as it was.
abbrev shorter : ModelSchema
shorter = record task { fields = text_field "title" false (some 1) (some 100) ∷ [] }

shorter_breaks :
    has_breaking_changes (compare_registries (registry_of task) (registry_of shorter)) ≡ true
unfolding has_breaking_changes compare_registries compare_models compare_fields
shorter_breaks = refl

-- A bound where there was none is not a breaking change.
abbrev unbounded : ModelSchema
unbounded = record task { fields = text_field "title" false none none ∷ [] }

new_bound :
    has_breaking_changes (compare_registries (registry_of unbounded) (registry_of task)) ≡ false
unfolding has_breaking_changes compare_registries compare_models compare_fields
new_bound = refl

abbrev twice_task : SchemaRegistry
twice_task = record { models = task ∷ longer ∷ []; version = "1.0" }

abbrev refused : SchemaError
refused = repeated_model

twice : check_registry twice_task ≡ raise refused
unfolding check_registry
twice = refl
