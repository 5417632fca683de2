-- ===== src/Provenance/Same.antt =====
-- scripts/bridge/lib/build-provenance.ts: `sameJson`. The keys of an object are distinct, so that two
-- objects have the same keys when they have as many and the one has every key of the other. A number
-- that is not whole equals none.
use rome_solidity.Prelude.{ℕ, suc, Bool, true, false, ◌&&◌, Option, some, ◌==◌, nat_eq, string_eq}
use rome_solidity.Prelude.Number.{JsNumber, whole, negative}
use rome_solidity.Prelude.Json.{
  Json, null, bool, num, str, arr, obj, Items, nil, cons, Fields, end, field, get,
}

abbrev pub same_num : JsNumber → JsNumber → Bool
same_num (whole a) (whole b) = a == b
same_num (negative a) (negative b) = a == b
same_num _ _ = false

abbrev pub same_bool : Bool → Bool → Bool
same_bool true b = b
same_bool false true = false
same_bool false false = true

-- `Object.keys(o).length`
abbrev pub count_keys : Fields → ℕ
count_keys end = 0
count_keys (field k v fs) = suc (count_keys fs)

unfoldable mutual
  pub same_json : Json → Option Json → Bool
  same_json null (some null) = true
  same_json (bool a) (some (bool b)) = same_bool a b
  same_json (num a) (some (num b)) = same_num a b
  same_json (str a) (some (str b)) = a == b
  same_json (arr xs) (some (arr ys)) = same_items xs ys
  same_json (obj fs) (some (obj gs)) = count_keys fs == count_keys gs && same_fields fs gs
  same_json _ _ = false

  pub same_items : Items → Items → Bool
  same_items nil nil = true
  same_items (cons x xs) (cons y ys) = same_json x (some y) && same_items xs ys
  same_items _ _ = false

  pub same_fields : Fields → Fields → Bool
  same_fields end gs = true
  same_fields (field k v fs) gs = same_json v (get k gs) && same_fields fs gs
