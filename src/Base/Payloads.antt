-- ===== src/Base/Payloads.antt =====
-- JSON values, and the `dict` of an object.
use Prim.Native.String.{String}
use mathlib.Core.Bool.{Bool}
use mathlib.Core.Option.{Option, none, some}
use project_os.Base.Tests.{if◌then◌else◌}
use project_os.Base.Equality.{◌==◌, string_eq}

-- A number is its text.
mutual
  pub data Json : Type 0 where
    null : Json
    truth : Bool → Json
    number : String → Json
    text : String → Json
    array : Items → Json
    object : Fields → Json

  pub data Items : Type 0 where
    nil : Items
    cons : Json → Items → Items

  pub data Fields : Type 0 where
    end : Fields
    field : String → Json → Fields → Fields

-- payload.get(key)
abbrev pub member : String → Fields → Option Json
member key end = none
member key (field k v rest) = if key == k then some v else member key rest
