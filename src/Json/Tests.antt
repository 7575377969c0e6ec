-- ===== src/Json/Tests.antt =====
-- Runs of `freeze_json_value`, and each theorem at a concrete input.
use comfy_ui_ng.Prelude.{◌≡◌, ◌↔◌, refl, true, [], ◌∷◌, some, ok, err, codes}
use comfy_ui_ng.Prelude.Int.{pos, negsuc}
use comfy_ui_ng.Json.{
  Value, null, string, integer, double, sequence, object, list, tuple, mapping, frozen_dict, nil,
  item, end, field, index, key, invalid_string, integer_range, not_finite, freeze,
}
use comfy_ui_ng.Json.Freeze.{stable, canonical, freeze_lem}

abbrev numbers : Value
numbers = sequence list (item (integer (pos 3)) (item null nil))

abbrev thawed : Value
thawed = object mapping (field (some (codes "a")) numbers end)

abbrev frozen : Value
frozen =
    object frozen_dict
      (field (some (codes "a")) (sequence tuple (item (integer (pos 3)) (item null nil))) end)

freeze-thawed : freeze [] thawed ≡ ok frozen
unfolding freeze
freeze-thawed = refl

least_integer :
    freeze [] (integer (negsuc 9223372036854775807)) ≡ ok (integer (negsuc 9223372036854775807))
unfolding freeze
least_integer = refl

below_range :
    freeze [] (sequence list (item (integer (negsuc 9223372036854775808)) nil))
    ≡ err (record { path = index 0 ∷ []; message = integer_range })
unfolding freeze
below_range = refl

lone_surrogate :
    freeze [] (string (0xD800 ∷ [])) ≡ err (record { path = []; message = invalid_string })
unfolding freeze
lone_surrogate = refl

infinity : freeze [] (double 9218868437227405312) ≡ err (record { path = []; message = not_finite })
unfolding freeze
infinity = refl

freeze_lem_example :
    (freeze (key (codes "p") ∷ []) thawed ≡ ok frozen)
    ↔ ((stable thawed ≡ true) × (frozen ≡ canonical thawed))
freeze_lem_example = freeze_lem (key (codes "p") ∷ []) thawed frozen
