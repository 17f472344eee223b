-- ===== src/Convert/TensorShapeProto.antt =====
-- `verify`, `fromObject`, `toObject` and `toJSON` of `hydrosphere.tensorflow.TensorShapeProto` in
-- tsclient/recstore-ts/src/compiled.js.
use timemachine.Base.{
  ◌≡◌, ◌≢◌, refl, ap₂, ◌∙◌, List, [], ◌∷◌, map, Bool, true, false, ◌||◌, Option, none, units,
}
use timemachine.Protobuf.Outcome.{Text, Result, ok, ◌>>=◌, >>=-step}
use timemachine.JsValue.{
  Value, undefined, boolean, array, no_items, is_nil, is_object_type, property_of,
}
use timemachine.Convert.{
  Longs, as_long, as_number, Options, to_json_options, Given, instance_of, plain, Row, shown,
  write_rows, verify_object, verify_field, first_error, within, from_field, to_message,
}
use timemachine.Convert.Rows.{
  with_default, shown_over, shown_over-default, property_of-write_rows, has_own-write_rows,
}
use timemachine.Convert.Fields.{from_field-shown, verify_field-shown, from_field-verified}
use timemachine.Convert.Conversion.{
  Conversion, first_error-none, verify_object-none, to_message-checked, to_message-to_object,
  within-to_object,
}
use timemachine.Convert.Arrays.{
  check_array, check_boolean, to_boolean, from_list, show_list, from_list-shown, verify_field-list,
  from_list-verified, to_boolean-checked,
}
use timemachine.Convert.Dim
use timemachine.Tensor.Dim.{IsValid as IsValidDim}
use timemachine.Tensor.TensorShapeProto
use timemachine.Tensor.TensorShapeProto.{TensorShapeProto}

unfoldable pub verify : Value → Result (Option Text)
verify message = verify_object message (
    first_error
      (verify_field (units "dim")
        (check_array (units "dim: array expected") (λ v. within (units "dim.") (Dim.verify v)))
        message)
      (verify_field (units "unknownRank") (check_boolean (units "unknownRank: boolean expected"))
        message))

-- The message with its defaults as own properties, if they are wanted, and its dimensions with theirs.
abbrev pub filled : Bool → TensorShapeProto → TensorShapeProto
filled d message = record {
  dim = map (Dim.filled d) message.dim;
  unknown_rank = with_default d false message.unknown_rank;
}

module _ (L : Longs) where
  unfoldable pub from_object : Given TensorShapeProto → Result TensorShapeProto
  from_object (instance_of message) = ok message
  from_object (plain obj) = do
    x_dim ← from_list (units "dim") (to_message (Dim.from_object L)) obj
    x_unknown_rank ← from_field (units "unknownRank") to_boolean obj
    ok (record { dim = x_dim; unknown_rank = x_unknown_rank })

  -- The fields in their order, each with its default.
  abbrev rows : TensorShapeProto → Options → List Row
  rows message options =
      record {
        key = units "dim";
        wanted = options.arrays || options.defaults;
        default = array no_items;
        value = show_list (λ m. Dim.to_object L m options) message.dim;
      }
      ∷ record {
        key = units "unknownRank";
        wanted = options.defaults;
        default = boolean false;
        value = shown boolean message.unknown_rank;
      }
      ∷ []

  unfoldable pub to_object : TensorShapeProto → Options → Value
  to_object message options = Value.object (write_rows (rows message options))

  abbrev pub to_json : TensorShapeProto → Value
  to_json message = to_object message to_json_options

  -- What stands under "unknownRank".
  rank_holds :
      (message : TensorShapeProto) (options : Options)
      → property_of (units "unknownRank") (write_rows (rows message options))
        ≡ shown_over boolean (with_default options.defaults false message.unknown_rank) undefined
  rank_holds message options =
      property_of-write_rows (units "unknownRank") (rows message options)
      ∙ shown_over-default boolean options.defaults false message.unknown_rank

  -- What is shown is read back.
  pub from_object-to_object :
      (message : TensorShapeProto) (options : Options)
      → TensorShapeProto.IsValid message
      → options.longs ≢ as_number
      → from_object (plain (to_object message options)) ≡ ok (filled options.defaults message)
  unfolding from_object to_object
  from_object-to_object message options (v₁, v₂) not_number =
      >>=-step _ (map (Dim.filled options.defaults) message.dim)
        (from_list-shown (λ m. Dim.to_object L m options) (units "dim") (rows message options)
          (options.arrays || options.defaults) message.dim refl (Dim.filled options.defaults)
          (to_message (Dim.from_object L)) IsValidDim v₁
          (λ m v. (to_message-to_object (Dim.conversion L) m options v not_number).1))
        (>>=-step _ (with_default options.defaults false message.unknown_rank)
          (from_field-shown boolean (units "unknownRank") to_boolean
            (with_default options.defaults false message.unknown_rank) undefined _
            (rank_holds message options) refl (λ b e. (refl, refl)))
          refl)

  pub verify-to_object :
      (message : TensorShapeProto) (options : Options)
      → options.longs ≡ as_long
      → verify (to_object message options) ≡ ok none
  unfolding verify to_object
  verify-to_object message options longs =
      ap₂ first_error
        (verify_field-list (λ m. Dim.to_object L m options) (units "dim") (rows message options)
          (options.arrays || options.defaults) message.dim refl (units "dim: array expected")
          (λ v. within (units "dim.") (Dim.verify v)) refl
          (λ m. within-to_object (Dim.conversion L) (units "dim.") m options longs))
        (verify_field-shown boolean (units "unknownRank")
          (check_boolean (units "unknownRank: boolean expected"))
          (with_default options.defaults false message.unknown_rank) undefined _
          (rank_holds message options) refl
          (has_own-write_rows (units "hasOwnProperty") (rows message options) refl) (λ b e. refl))

  pub verify-from_object :
      (v : Value)
      → verify v ≡ ok none
      → (message : TensorShapeProto) × (from_object (plain v) ≡ ok message)
  unfolding verify from_object
  verify-from_object v h =
      let (ob, there, h₁) = verify_object-none v _ h in
      let (p₁, p₂) = first_error-none _ _ h₁ in
      let (l, e₁) =
        from_list-verified (units "dim") (units "dim: array expected")
          (λ w. within (units "dim.") (Dim.verify w)) (to_message (Dim.from_object L)) v there p₁
          (λ w. to_message-checked (Dim.conversion L) (units "dim.") w) in
      let (o, e₂) =
        from_field-verified (units "unknownRank")
          (check_boolean (units "unknownRank: boolean expected")) to_boolean v there p₂
          (λ w. to_boolean-checked (units "unknownRank: boolean expected") w) in
      (record { dim = l; unknown_rank = o }, >>=-step _ l e₁ (>>=-step _ o e₂ refl))

  pub to_object-IsObject :
      (message : TensorShapeProto) (options : Options)
      → (is_object_type (to_object message options) ≡ true)
        × (is_nil (to_object message options) ≡ false)
  unfolding to_object
  to_object-IsObject message options = (refl, refl)

  pub verify-IsObject :
      (v : Value) → verify v ≡ ok none → (is_object_type v ≡ true) × (is_nil v ≡ false)
  unfolding verify
  verify-IsObject v h = let (ob, there, fields) = verify_object-none v _ h in (ob, there)

  abbrev pub conversion : Conversion TensorShapeProto
  conversion = record {
    IsValid = TensorShapeProto.IsValid;
    verify = verify;
    from_object = from_object;
    to_object = to_object;
    filled = filled;
    to_object-IsObject = to_object-IsObject;
    from_object-to_object = from_object-to_object;
    verify-to_object = verify-to_object;
    verify-IsObject = verify-IsObject;
    verify-from_object = verify-from_object;
  }
