-- ===== src/Json.antt =====
-- core/json_values.py: the values that enter contracts, and `freeze_json_value`.
-- A value is a tree, so the guards against cyclic containers (`active_containers`) cannot fire and
-- are left out. A path is the list of its steps, unrendered (`_child_path` renders them).
pub mod Freeze
mod Tests
use comfy_ui_ng.Prelude.{
  ℕ, ◌+◌, ◌*◌, ◌/◌, ◌%◌, ◌^◌, Bool, true, false, not, ◌&&◌, ◌||◌, List, [], ◌∷◌, ◌++◌, Option, none,
  some, Result, ok, err, ◌>>=◌, String, Text, codes, all, ltb, leb, ◌==◌, if◌then◌else◌,
}
use comfy_ui_ng.Prelude.Int.{ℤ, pos, negsuc}

-- The types of container that `freeze_json_value` tells apart.
pub data SequenceType : Type 0 where
  list tuple : SequenceType

pub data MappingType : Type 0 where
  mapping frozen_dict : MappingType

-- `double` holds the 64 bits of a float, `foreign` is a value of any other type.
mutual
  pub data Value : Type 0 where
    null : Value
    boolean : Bool → Value
    string : Text → Value
    integer : ℤ → Value
    double : ℕ → Value
    sequence : SequenceType → Items → Value
    object : MappingType → Fields → Value
    foreign : ℕ → Value

  pub data Items : Type 0 where
    nil : Items
    item : Value → Items → Items

  -- A key that is no `str` is `none`.
  pub data Fields : Type 0 where
    end : Fields
    field : Option Text → Value → Fields → Fields

pub data Step : Type 0 where
  index : ℕ → Step
  key : Text → Step

abbrev pub JsonPath : Type 0
JsonPath = List Step

-- The `path` that a record's guard passes for one of its fields, as in `"$.value"`.
abbrev pub field_path : String → JsonPath
field_path name = key (codes name) ∷ []

pub data Message : Type 0 where
  invalid_string integer_range not_finite key_type invalid_key unstable_type : Message

-- `JsonValueValidationError`
pub record JsonValueError : Type 0 where
  pub path : JsonPath
  pub message : Message

-- `s.encode("utf-8")` raises on a lone surrogate.
is_scalar : ℕ → Bool
is_scalar c = ltb c 0xD800 || ltb 0xDFFF c

unfoldable pub encodes : Text → Bool
unfolding is_scalar
encodes s = all is_scalar s

-- _MIN_JSON_INTEGER <= value <= _MAX_JSON_INTEGER
in_json_range : ℤ → Bool
in_json_range (pos n) = leb n 9223372036854775807
in_json_range (negsuc n) = leb n 9223372036854775807

-- `math.isfinite`: the exponent bits are not all ones.
is_finite : ℕ → Bool
is_finite bits = not (bits / 4503599627370496 % 2048 == 2047)

refuse : JsonPath → Message → Result JsonValueError Value
refuse p m = err (record { path = p; message = m })

unfoldable mutual
  unfolding encodes in_json_range is_finite refuse

  -- `_freeze_json_value`
  pub freeze : JsonPath → Value → Result JsonValueError Value
  freeze p null = ok null
  freeze p (boolean b) = ok (boolean b)
  freeze p (string s) = if encodes s then ok (string s) else refuse p invalid_string
  freeze p (integer i) = if in_json_range i then ok (integer i) else refuse p integer_range
  freeze p (double d) = if is_finite d then ok (double d) else refuse p not_finite
  freeze p (sequence t xs) = do ys ← freeze_items p 0 xs; ok (sequence tuple ys)
  freeze p (object t fs) = do gs ← freeze_fields p fs; ok (object frozen_dict gs)
  freeze p (foreign n) = refuse p unstable_type

  pub freeze_items : JsonPath → ℕ → Items → Result JsonValueError Items
  freeze_items p i nil = ok nil
  freeze_items p i (item x xs) = do
    y ← freeze (p ++ index i ∷ []) x
    ys ← freeze_items p (i + 1) xs
    ok (item y ys)

  pub freeze_fields : JsonPath → Fields → Result JsonValueError Fields
  freeze_fields p end = ok end
  freeze_fields p (field none x fs) = err (record { path = p; message = key_type })
  freeze_fields p (field (some k) x fs) =
      if encodes k
      then (do y ← freeze (p ++ key k ∷ []) x; gs ← freeze_fields p fs; ok (field (some k) y gs))
      else err (record { path = p; message = invalid_key })

-- `isinstance(value, Mapping)`
unfoldable pub is_object : Value → Bool
is_object (object t fs) = true
is_object _ = false
