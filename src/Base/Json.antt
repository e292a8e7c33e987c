-- ===== src/Base/Json.antt =====
-- The values of type `unknown` that the code passes around, as far as it looks into them.
use Prim.Native.String.{String}
use mathlib.Core.Bool.{Bool, true, false, not}
use text.Mathlib.Text.{◌==◌ as str_eq}
use birthub_360_innovation.Base.Tests.{if◌then◌else◌}
use birthub_360_innovation.Base.Int.{Number, is_nonzero}

mutual
  pub data Value : Type 0 where
    undefined null : Value
    bool : Bool → Value
    num : Number → Value
    str : String → Value
    arr : Items → Value
    obj : Fields → Value

  pub data Items : Type 0 where
    no_items : Items
    item : Value → Items → Items

  pub data Fields : Type 0 where
    end : Fields
    field : String → Value → Fields → Fields

-- `fields[key]`
unfoldable pub get_field : String → Fields → Value
get_field key end = undefined
get_field key (field k v fs) = if str_eq k key then v else get_field key fs

-- `Boolean(x)`
abbrev pub truthy : Value → Bool
truthy undefined = false
truthy null = false
truthy (bool b) = b
truthy (num n) = is_nonzero n
truthy (str s) = not (str_eq s "")
truthy _ = true

-- `x ?? null`
abbrev pub or_null : Value → Value
or_null undefined = null
or_null v = v

abbrev pub is_undefined : Value → Bool
is_undefined undefined = true
is_undefined _ = false

abbrev pub is_null : Value → Bool
is_null null = true
is_null _ = false

-- `x?.key` of a value that may be no object; arrays have no such key.
abbrev pub member : String → Value → Value
member key (obj fs) = get_field key fs
member key _ = undefined

-- `x === text`
abbrev pub is_text : Value → String → Bool
is_text (str s) t = str_eq s t
is_text _ t = false
