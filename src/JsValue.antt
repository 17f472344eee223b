-- ===== src/JsValue.antt =====
-- JavaScript values that hold plain data, as `verify`, `fromObject` and `toObject` of
-- tsclient/recstore-ts/src/compiled.js take and return them: no functions, and no instance of a message
-- class inside.
use timemachine.Base.{ℕ, ℤ, List, [], Bool, true, false, ◌&&◌, ◌||◌, if◌then◌else◌, units}
use timemachine.Protobuf.Outcome.{Text, Result, ok, throw, type_error}
use timemachine.JsObject.{text_eq}

-- A number that is an integer, or another one by the bits of its double. A Long is given by its
-- 64 bits, a buffer by its bytes.
mutual
  pub data Value : Type 0 where
    undefined null : Value
    boolean : Bool → Value
    integer : ℤ → Value
    double : ℕ → Value
    string : Text → Value
    long : ℕ → Value
    buffer : List ℕ → Value
    array : Items → Value
    object : Properties → Value

  pub data Items : Type 0 where
    no_items : Items
    item : Value → Items → Items

  pub data Properties : Type 0 where
    no_properties : Properties
    property : Text → Value → Properties → Properties

-- `object[key]`, for own properties.
abbrev pub property_of : Text → Properties → Value
property_of key no_properties = undefined
property_of key (property k v rest) = if text_eq k key then v else property_of key rest

abbrev pub has_own : Text → Properties → Bool
has_own key no_properties = false
has_own key (property k v rest) = text_eq k key || has_own key rest

-- `object[key] = value`
unfoldable pub set_property : Text → Value → Properties → Properties
set_property key value no_properties = property key value no_properties
set_property key value (property k v rest) =
    if text_eq k key then property k value rest else property k v (set_property key value rest)

-- `value == null`
abbrev pub is_nil : Value → Bool
is_nil undefined = true
is_nil null = true
is_nil _ = false

-- `typeof value === "object"`
abbrev pub is_object_type : Value → Bool
is_object_type null = true
is_object_type (long b) = true
is_object_type (buffer b) = true
is_object_type (array vs) = true
is_object_type (object ps) = true
is_object_type _ = false

-- `value.key` for a key that no prototype has, and that is no part of a Long or a buffer.
abbrev pub member : Text → Value → Value
member key (object ps) = property_of key ps
member key _ = undefined

unfoldable pub get : Text → Value → Result Value
get key undefined = throw (type_error [])
get key null = throw (type_error [])
get key v = ok (member key v)

-- `$util.isInteger`, `$util.isString`
abbrev pub is_integer : Value → Bool
is_integer (integer z) = true
is_integer _ = false

abbrev pub is_string : Value → Bool
is_string (string t) = true
is_string _ = false

abbrev pub is_boolean : Value → Bool
is_boolean (boolean b) = true
is_boolean _ = false

-- `value && $util.isInteger(value.low) && $util.isInteger(value.high)`: a Long has both parts.
abbrev pub is_long : Value → Bool
is_long (long b) = true
is_long (object ps) =
    is_integer (property_of (units "low") ps) && is_integer (property_of (units "high") ps)
is_long _ = false
