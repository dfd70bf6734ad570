-- ===== src/Schema/Evolution.antt =====
-- `SchemaComparator` (app/orchestration/schema_evolution.py): the changes between two registries.
-- A name stands once in a registry and once in a model, so the dicts by name are lookups. The keys
-- that a set operation gives are in the order of the registry that they come from.
use project_os.Base.{
  ℕ, String, Bool, true, false, not, ◌&&◌, ◌||◌, Option, none, some, List, [], ◌∷◌, ◌++◌, any, ltb,
  ◌==◌, string_eq, nat_eq, option_eq, if◌then◌else◌,
}
use project_os.Schema.{FieldSchema, ModelSchema, SchemaRegistry, get_field, get_model, type_eq}

pub data ChangeType : Type 0 where
  field_added field_removed field_type_changed field_optional_changed : ChangeType
  field_constraint_changed model_added model_removed model_renamed : ChangeType

pub data CompatibilityLevel : Type 0 where
  backward_compatible forward_compatible breaking_change : CompatibilityLevel

-- SchemaChange, without the values and the description that are shown
pub record SchemaChange : Type 0 where
  pub change_type : ChangeType
  pub compatibility : CompatibilityLevel
  pub model_name : String
  pub field_name : Option String

abbrev pub is_breaking_level : CompatibilityLevel → Bool
is_breaking_level backward_compatible = false
is_breaking_level forward_compatible = false
is_breaking_level breaking_change = true

abbrev pub is_breaking : SchemaChange → Bool
is_breaking change = is_breaking_level change.compatibility

-- A change of a model, and of a field.
abbrev model_change : ChangeType → CompatibilityLevel → ModelSchema → SchemaChange
model_change change_type level m = record {
  change_type = change_type;
  compatibility = level;
  model_name = m.name;
  field_name = none;
}

abbrev pub field_change : ChangeType → CompatibilityLevel → String → FieldSchema → SchemaChange
field_change change_type level model_name f = record {
  change_type = change_type;
  compatibility = level;
  model_name = model_name;
  field_name = some f.name;
}

-- old != new
abbrev pub differs : Bool → Bool → Bool
differs true b = not b
differs false b = b

-- BACKWARD_COMPATIBLE if new_field.optional else BREAKING_CHANGE
abbrev pub level_of_optional : FieldSchema → CompatibilityLevel
level_of_optional new = if new.optional then backward_compatible else breaking_change

-- Both bounds are there and not zero, and the first is less than the second.
abbrev pub is_below : Option ℕ → Option ℕ → Bool
is_below (some a) (some b) = not (a == 0) && not (b == 0) && ltb a b
is_below _ _ = false

abbrev pub level_of_bounds : FieldSchema → FieldSchema → CompatibilityLevel
level_of_bounds old new =
    if is_below new.max_length old.max_length || is_below old.min_length new.min_length
    then breaking_change
    else backward_compatible

-- SchemaComparator._compare_fields
unfoldable pub compare_fields : String → FieldSchema → FieldSchema → List SchemaChange
compare_fields model_name old new =
    (if not (old.field_type == new.field_type)
      then field_change field_type_changed breaking_change model_name old ∷ []
      else [])
    ++ (if differs old.optional new.optional
        then field_change field_optional_changed (level_of_optional new) model_name old ∷ []
        else [])
    ++ (if not (old.max_length == new.max_length) || not (old.min_length == new.min_length)
        then field_change field_constraint_changed (level_of_bounds old new) model_name old ∷ []
        else [])

-- _compare_models: a field of the new model
abbrev pub added_field : ModelSchema → FieldSchema → List SchemaChange
added_field old new = elim (get_field new.name old) [
  | none ↦ field_change field_added (level_of_optional new) old.name new ∷ []
  | some f ↦ []
]

-- _compare_models: a field of the old model, removed or kept
abbrev pub removed_field : ModelSchema → ModelSchema → FieldSchema → List SchemaChange
removed_field old new f = elim (get_field f.name new) [
  | none ↦ field_change field_removed breaking_change old.name f ∷ []
  | some g ↦ []
]

abbrev pub kept_field : ModelSchema → ModelSchema → FieldSchema → List SchemaChange
kept_field old new f = elim (get_field f.name new) [
  | none ↦ []
  | some g ↦ compare_fields old.name f g
]

-- The changes of each, one after the other.
abbrev pub changes_of : {A : Type 0} → (A → List SchemaChange) → List A → List SchemaChange
changes_of change [] = []
changes_of change (x ∷ xs) = change x ++ changes_of change xs

-- SchemaComparator._compare_models
unfoldable pub compare_models : ModelSchema → ModelSchema → List SchemaChange
compare_models old new =
    changes_of (added_field old) new.fields
    ++ changes_of (removed_field old new) old.fields
    ++ changes_of (kept_field old new) old.fields

-- compare_registries: a model of the new registry
abbrev pub added_model : SchemaRegistry → ModelSchema → List SchemaChange
added_model old m = elim (get_model m.name old) [
  | none ↦ model_change model_added forward_compatible m ∷ []
  | some n ↦ []
]

-- compare_registries: a model of the old registry, removed or kept
abbrev pub removed_model : SchemaRegistry → ModelSchema → List SchemaChange
removed_model new m = elim (get_model m.name new) [
  | none ↦ model_change model_removed breaking_change m ∷ []
  | some n ↦ []
]

abbrev pub kept_model : SchemaRegistry → ModelSchema → List SchemaChange
kept_model new m = elim (get_model m.name new) [ none ↦ [] | some n ↦ compare_models m n ]

-- SchemaComparator.compare_registries
unfoldable pub compare_registries : SchemaRegistry → SchemaRegistry → List SchemaChange
compare_registries old new =
    changes_of (added_model old) new.models
    ++ changes_of (removed_model new) old.models
    ++ changes_of (kept_model new) old.models

-- SchemaComparator.has_breaking_changes
unfoldable pub has_breaking_changes : List SchemaChange → Bool
has_breaking_changes changes = any is_breaking changes
