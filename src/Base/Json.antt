-- ===== src/Base/Json.antt =====
-- `serde_json::Value`, and the readers that the program uses. A number is a `u64`, or the text of
-- another one. An object's keys are the keys of a map, so in the values that the program reads each
-- stands once; the type does not ask for it, nor that the other texts are numbers, and no theorem
-- relies on reading back what was written.
use Prim.Native.Nat.{ℕ}
use Prim.Native.String.{String}
use mathlib.Core.Bool.{Bool}
use mathlib.Core.Option.{Option, none, some}
use rs_llmctl.Base.Tests.{if◌then◌else◌, str_eq}

mutual
  pub data Json : Type 0 where
    null : Json
    bool : Bool → Json
    number : ℕ → Json
    other_number : String → Json
    text : String → Json
    array : Items → Json
    object : Fields → Json

  pub data Items : Type 0 where
    no_items : Items
    item : Json → Items → Items

  pub data Fields : Type 0 where
    no_fields : Fields
    field : String → Json → Fields → Fields

-- the value of a key
abbrev pub field_of : String → Fields → Option Json
field_of k no_fields = none
field_of k (field j v fs) = if str_eq j k then some v else field_of k fs

-- `value.get(key)`
abbrev pub get : String → Json → Option Json
get k (object fs) = field_of k fs
get k _ = none

abbrev pub as_u64 : Json → Option ℕ
as_u64 (number n) = some n
as_u64 _ = none

-- `insert(key, value)` into an object
abbrev pub insert_field : String → Json → Fields → Fields
insert_field k v no_fields = field k v no_fields
insert_field k v (field j w fs) =
    if str_eq j k then field j v fs else field j w (insert_field k v fs)
