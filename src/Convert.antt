-- ===== src/Convert.antt =====
-- What `verify`, `fromObject`, `toObject` and `toJSON` of the messages in
-- tsclient/recstore-ts/src/compiled.js are made of.
pub mod ExecutionMetadata
pub mod Laws
pub mod Rows
pub mod Fields
pub mod Conversion
pub mod Kinds
pub mod Arrays
pub mod TensorShapeProto
pub mod RoundTrip
pub mod ModelSpec
pub mod Dim
pub mod TraceData
pub mod ExecutionError
pub mod Int64Value
use timemachine.Base.{
  ℕ, ℤ, ◌^◌, ◌<◌, ◌≤◌, ◌%◌, ◌≡◌, ◌≢◌, List, [], ◌∷◌, ◌++◌, Bool, true, false, Option, none, some,
  leb, units, if◌then◌else◌,
}
use timemachine.Protobuf.Outcome.{
  Text, Result, ok, throw, stuck, type_error, conversion_error, ◌>>=◌,
}
use timemachine.Protobuf.Runtime.{IsLong}
use timemachine.JsValue.{
  Value, undefined, null, boolean, integer, double, string, long, Properties, no_properties,
  has_own, member, get, set_property, is_nil, is_object_type, is_integer, is_long, is_string,
}

-- `options.longs`: absent, `Number` or `String`.
pub data LongsAs : Type 0 where
  as_long as_number as_string : LongsAs

pub record Options : Type 0 where
  pub longs : LongsAs
  pub defaults : Bool
  pub arrays : Bool

-- `{}`, and `$protobuf.util.toJSONOptions`.
abbrev pub no_options : Options
no_options = record { longs = as_long; defaults = false; arrays = false }

abbrev pub to_json_options : Options
to_json_options = record no_options { longs = as_string }

-- The package `long`, which `$util.Long` is, `$util.LongBits`, and `String` of a value that is not a
-- string. A Long is its 64 bits; `none` is a throw.
pub record Longs : Type 0 where
  pub from_value : Value → Option ℕ
  pub to_text : ℕ → Text
  pub to_number : ℕ → Value
  pub text_of : Value → Option Text
  pub from_value-long : (b : ℕ) → IsLong b → from_value (long b) ≡ some b
  pub from_value-to_text : (b : ℕ) → IsLong b → from_value (string (to_text b)) ≡ some b
  pub from_value-integer : (z : ℤ) → (b : ℕ) × (from_value (integer z) ≡ some b)
  pub from_value-IsLong : (v : Value) → is_long v ≡ true → (b : ℕ) × (from_value v ≡ some b)

-- What `fromObject` is given: an instance of the class, or a plain object.
pub data Given (M : Type 0) : Type 0 where
  instance_of : M → Given M
  plain : Value → Given M

-- `if (check) return error`, one after the other: the first error is returned.
abbrev pub first_error : Result (Option Text) → Result (Option Text) → Result (Option Text)
first_error (ok none) rest = rest
first_error (ok (some e)) rest = ok (some e)
first_error (throw e) rest = throw e
first_error stuck rest = stuck

-- `object.hasOwnProperty(key)`, which throws if the object has an own `hasOwnProperty`, as that is no
-- function.
abbrev owns : Text → Value → Result Bool
owns key (Value.object ps) =
    if has_own (units "hasOwnProperty") ps then throw (type_error []) else ok (has_own key ps)
owns key _ = ok false

-- `if (message.x != null && message.hasOwnProperty("x")) <check of message.x>`
unfoldable pub verify_field : Text → (Value → Result (Option Text)) → Value → Result (Option Text)
verify_field key check message =
    let x = member key message in
    if is_nil x then ok none else (owns key message >>= λ own. if own then check x else ok none)

-- `if (typeof message !== "object" || message === null) return "object expected"`
abbrev pub verify_object : Value → Result (Option Text) → Result (Option Text)
verify_object null fields = ok (some (units "object expected"))
verify_object v fields = if is_object_type v then fields else ok (some (units "object expected"))

-- `if (!$util.isInteger(x) && !(x && $util.isInteger(x.low) && $util.isInteger(x.high)))`
abbrev pub check_long : Text → Value → Result (Option Text)
check_long error v =
    if is_integer v then ok none else if is_long v then ok none else ok (some error)

-- `if (!$util.isString(x))`
abbrev pub check_string : Text → Value → Result (Option Text)
check_string error v = if is_string v then ok none else ok (some error)

-- `var error = M.verify(x); if (error) return prefix + error;`
abbrev pub within : Text → Result (Option Text) → Result (Option Text)
within prefix (ok none) = ok none
within prefix (ok (some e)) = ok (some (prefix ++ e))
within prefix (throw e) = throw e
within prefix stuck = stuck

-- `if (object.x != null) message.x = <conversion of object.x>`
unfoldable pub from_field : {A : Type 0} → Text → (Value → Result A) → Value → Result (Option A)
from_field key convert obj =
    get key obj >>= λ v. if is_nil v then ok none else (convert v >>= λ a. ok (some a))

abbrev pub or_throw : {A : Type 0} → Option A → Result A
or_throw none = throw conversion_error
or_throw (some a) = ok a

module _ (L : Longs) where
  -- `($util.Long.fromValue(x)).unsigned = false`
  abbrev pub to_long : Value → Result ℕ
  to_long v = or_throw (L.from_value v)

  -- `String(x)`
  abbrev pub to_string : Value → Result Text
  to_string (string t) = ok t
  to_string v = or_throw (L.text_of v)

  -- `options.longs === String ? … : options.longs === Number ? … : x`
  abbrev pub show_long : Options → ℕ → Value
  show_long options b = elim options.longs [
    | as_string ↦ string (L.to_text b)
    | as_number ↦ L.to_number b
    | as_long ↦ long b
  ]

-- `if (typeof x !== "object") throw TypeError(…); message.x = M.fromObject(x)`
abbrev pub to_message : {M : Type 0} → (Given M → Result M) → Value → Result M
to_message from_object v = if is_object_type v then from_object (plain v) else throw (type_error [])

-- One field in `toObject`: its key, its default and whether the options want it, and its value if the
-- message has one to show.
pub record Row : Type 0 where
  pub key : Text
  pub wanted : Bool
  pub default : Value
  pub value : Option Value

-- A field of a message, with how its value is shown.
abbrev pub shown : {A : Type 0} → (A → Value) → Option A → Option Value
shown show none = none
shown show (some a) = some (show a)

-- `if (options.defaults) object.x = <default>`
abbrev pub put_default : Row → Properties → Properties
put_default row ps = if row.wanted then set_property row.key row.default ps else ps

abbrev pub put_defaults : List Row → Properties → Properties
put_defaults [] ps = ps
put_defaults (row ∷ rows) ps = put_defaults rows (put_default row ps)

-- `if (message.x != null && message.hasOwnProperty("x")) object.x = <value of message.x>`
abbrev pub put_value : Text → Option Value → Properties → Properties
put_value key none ps = ps
put_value key (some v) ps = set_property key v ps

abbrev pub put_values : List Row → Properties → Properties
put_values [] ps = ps
put_values (row ∷ rows) ps = put_values rows (put_value row.key row.value ps)

-- `var object = {}`, the defaults, the fields.
unfoldable pub write_rows : List Row → Properties
write_rows rows = put_values rows (put_defaults rows no_properties)
