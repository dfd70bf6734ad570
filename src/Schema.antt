-- ===== src/Schema.antt =====
-- The schemas of the data models that the agents share (app/orchestration/schema_registry.py).
pub mod Evolution
pub mod Compatible
use project_os.Base.{
  ℕ, String, ◌≡◌, refl, Bool, Option, some, List, [], ◌∷◌, find?, Eq, ◌==◌, Enum, enum_eq,
  string_eq, not, distinct, map, is_blank, Result, ok, ◌>>◌, refuse_if,
}

pub data FieldType : Type 0 where
  string integer float boolean datetime date uuid json : FieldType

abbrev pub type_value : FieldType → String
type_value string = "string"
type_value integer = "integer"
type_value float = "float"
type_value boolean = "boolean"
type_value datetime = "datetime"
type_value date = "date"
type_value uuid = "uuid"
type_value json = "json"

abbrev pub types : List FieldType
types = string ∷ integer ∷ float ∷ boolean ∷ datetime ∷ date ∷ uuid ∷ json ∷ []

pub type_found : (a : FieldType) → find? (λ b. type_value b == type_value a) types ≡ some a
type_found string = refl
type_found _ = refl

instance abbrev pub type_eq : Eq FieldType
type_eq = enum_eq (record { value = type_value; members = types; found = type_found })

-- FieldSchema: the fields that the comparison reads
pub record FieldSchema : Type 0 where
  pub name : String
  pub field_type : FieldType
  pub optional : Bool
  pub max_length : Option ℕ
  pub min_length : Option ℕ

pub record ModelSchema : Type 0 where
  pub name : String
  pub fields : List FieldSchema
  pub phase : String
  pub description : String

pub record SchemaRegistry : Type 0 where
  pub models : List ModelSchema
  pub version : String

-- The ValueErrors of the three constructors.
pub data SchemaError : Type 0 where
  blank_field_name blank_model_name blank_phase repeated_field repeated_model : SchemaError

-- FieldSchema.__post_init__
unfoldable pub check_field : FieldSchema → Result SchemaError FieldSchema
check_field f = do refuse_if (is_blank f.name) blank_field_name; ok f

-- ModelSchema.__post_init__
unfoldable pub check_model : ModelSchema → Result SchemaError ModelSchema
check_model m = do
  refuse_if (is_blank m.name) blank_model_name
  refuse_if (is_blank m.phase) blank_phase
  refuse_if (not (distinct (map (λ f. f.name) m.fields))) repeated_field
  ok m

-- SchemaRegistry.__post_init__
unfoldable pub check_registry : SchemaRegistry → Result SchemaError SchemaRegistry
check_registry r = do refuse_if (not (distinct (map (λ m. m.name) r.models))) repeated_model; ok r

-- ModelSchema.get_field
abbrev pub get_field : String → ModelSchema → Option FieldSchema
get_field name m = find? (λ f. f.name == name) m.fields

-- SchemaRegistry.get_model
abbrev pub get_model : String → SchemaRegistry → Option ModelSchema
get_model name r = find? (λ m. m.name == name) r.models
