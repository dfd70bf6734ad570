-- ===== src/Base/Enums.antt =====
-- `class E(str, Enum)`: members with text values. `E(value)` finds the member, or raises.
use Prim.Native.String.{String}
use mathlib.Core.Path.{◌≡◌, ap}
use mathlib.Core.Logic.{◌↔◌}
use mathlib.Core.Bool.{true}
use mathlib.Core.Option.{Option, some}
use mathlib.Core.List.{List}
use project_os.Base.Equality.{Eq, ◌==◌, string_eq}
use project_os.Base.Lists.{find?}

-- The members in their order, and that looking a member's value up finds it.
pub record Enum (A : Type 0) : Type 0 where
  pub value : A → String
  pub members : List A
  pub found : (a : A) → find? (λ b. value b == value a) members ≡ some a

module _ {A : Type 0} (m : Enum A) where
  -- E(s)
  abbrev pub of_value : String → Option A
  of_value s = find? (λ b. m.value b == s) m.members

  pub value_injective : (a b : A) → m.value a ≡ m.value b → a ≡ b
  value_injective a b p = cc (m.found a, m.found b, ap of_value p)

  pub value_iff : (a b : A) → ((m.value a == m.value b) ≡ true) ↔ (a ≡ b)
  value_iff a b =
      (λ h. value_injective a b ((eq_of_values a b).0 h), λ p. (eq_of_values a b).1 (ap m.value p))
    where
      eq_of_values : (a b : A) → ((m.value a == m.value b) ≡ true) ↔ (m.value a ≡ m.value b)
      eq_of_values a b = string_eq.beq_iff (m.value a) (m.value b)

  -- Members are compared by their values, which are distinct.
  abbrev pub enum_eq : Eq A
  enum_eq = record { beq = λ a b. m.value a == m.value b; beq_iff = value_iff }
