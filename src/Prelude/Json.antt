-- ===== src/Prelude/Json.antt =====
-- JSON values, as `JSON.parse` gives them.
use Prim.Native.String.{String}
use mathlib.Core.Path.{◌≡◌, refl}
use mathlib.Core.Bool.{Bool}
use mathlib.Core.Option.{Option, none, some}
use native.Mathlib.Omega.{arith}
use text.Mathlib.TextEquality.{eq_iff}
use rome_solidity.Prelude.Tests.{◌==◌, string_eq, if◌then◌else◌}
use rome_solidity.Prelude.Number.{JsNumber}

mutual
  pub data Json : Type 0 where
    null : Json
    bool : Bool → Json
    num : JsNumber → Json
    str : String → Json
    arr : Items → Json
    obj : Fields → Json

  pub data Items : Type 0 where
    nil : Items
    cons : Json → Items → Items

  pub data Fields : Type 0 where
    end : Fields
    field : String → Json → Fields → Fields

-- `o[k]`; the keys of an object are distinct.
abbrev pub get : String → Fields → Option Json
get k end = none
get k (field j v fs) = if j == k then some v else get k fs

-- `{ ...o, [k]: v }` at a key that is not there
unfoldable pub add_field : String → Json → Fields → Fields
add_field k v end = field k v end
add_field k v (field j w fs) = field j w (add_field k v fs)

-- `v?.k`, at a value that may be no object
unfoldable pub get_in : String → Option Json → Option Json
get_in k (some (obj fs)) = get k fs
get_in k _ = none

-- `typeof v === "string"`, with the text
unfoldable pub as_text : Option Json → Option String
as_text (some (str s)) = some s
as_text _ = none

pub get-add_field :
    (j k : String) (v : Json) (fs : Fields)
    → get k fs ≡ none
    → get j (add_field k v fs) ≡ (if k == j then some v else get j fs)
unfolding add_field
get-add_field j k v end h = refl
get-add_field j k v (field i w fs) h =
    ground (arith, eq_iff k j, eq_iff i k, eq_iff i j, get-add_field j k v fs)
