-- ===== src/Resources/Pressure.antt =====
-- resources/pressure.py. A ratio is a fraction, and the thresholds are fractions too, so that
-- `used / limit >= ratio` is a comparison of products; float rounding is not modelled. The time of an
-- event (`observed_at`) is left out.
use comfy_ui_ng.Prelude.{
  ℕ, ◌*◌, ◌≡◌, ◌↔◌, refl, arith, Bool, true, false, not, ◌&&◌, ◌||◌, List, [], ◌∷◌, Option, none,
  some, Result, ok, err, ◌>>=◌, ◌>>◌, raise_if, ltb, leb, ◌==◌, is_some, bool_eq, if◌then◌else◌,
  String, Eq, nat_eq, option_eq, pair_eq,
}
use comfy_ui_ng.Prelude.Dict.{Dict, lookup, insert}
pub mod Levels
mod Tests

pub data PressureKind : Type 0 where
  cpu memory pinned_memory gpu io_read io_write : PressureKind

abbrev kind_index : PressureKind → ℕ
kind_index cpu = 0
kind_index memory = 1
kind_index pinned_memory = 2
kind_index gpu = 3
kind_index io_read = 4
kind_index io_write = 5

abbrev kind_beq : PressureKind → PressureKind → Bool
kind_beq a b = kind_index a == kind_index b

pub kind_beq-iff_eq : (a b : PressureKind) → (kind_beq a b ≡ true) ↔ (a ≡ b)
kind_beq-iff_eq a b = ground arith

instance abbrev pub kind_eq : Eq PressureKind
kind_eq = record { beq = kind_beq; beq-iff_eq = kind_beq-iff_eq }

pub data PressureLevel : Type 0 where
  normal elevated critical : PressureLevel

abbrev pub level_beq : PressureLevel → PressureLevel → Bool
level_beq normal normal = true
level_beq elevated elevated = true
level_beq critical critical = true
level_beq _ _ = false

-- `elevated / scale` and `critical / scale` are the two ratios.
pub record PressureThresholds : Type 0 where
  pub scale : ℕ
  pub elevated_ratio : ℕ
  pub critical_ratio : ℕ

-- `0 < elevated < critical <= 1`
pub check_thresholds : PressureThresholds → Result String PressureThresholds
check_thresholds t = do
  raise_if
      (not (
        ltb 0 t.elevated_ratio
        && ltb t.elevated_ratio t.critical_ratio
        && leb t.critical_ratio t.scale))
      "pressure ratios must satisfy 0 < elevated < critical <= 1"
  ok t

pub record PressureSample : Type 0 where
  pub kind : PressureKind
  pub used : ℕ
  pub limit : ℕ
  pub device_index : Option ℕ

-- `PressureSample.__post_init__`
pub check_sample : PressureSample → Result String PressureSample
check_sample s = do
  raise_if (ltb s.limit 1) "limit must be a positive integer"
  raise_if (kind_beq s.kind gpu && not (is_some s.device_index))
      "GPU pressure requires device_index"
  raise_if (not (kind_beq s.kind gpu) && is_some s.device_index)
      "device_index is only valid for GPU pressure"
  ok s

abbrev pub Key : Type 0
Key = PressureKind × Option ℕ

pub record PressureEvent : Type 0 where
  pub kind : PressureKind
  pub previous_level : PressureLevel
  pub level : PressureLevel
  pub used : ℕ
  pub limit : ℕ
  pub device_index : Option ℕ

pub record PressureMonitor : Type 0 where
  pub thresholds : PressureThresholds
  pub levels : Dict Key PressureLevel

-- `_classify(used / limit)`
pub classify : PressureThresholds → (used limit : ℕ) → PressureLevel
classify t used limit =
    if leb (t.critical_ratio * limit) (used * t.scale)
    then critical
    else (if leb (t.elevated_ratio * limit) (used * t.scale) then elevated else normal)

level_or_normal : Option PressureLevel → PressureLevel
level_or_normal none = normal
level_or_normal (some l) = l

-- `level`
pub level_of : PressureMonitor → Key → PressureLevel
unfolding level_or_normal
level_of m key = level_or_normal (lookup key m.levels)

unfoldable pub observe : PressureMonitor → PressureSample → PressureMonitor × Option PressureEvent
observe m s =
    let key : Key = (s.kind, s.device_index) in
    let previous = level_of m key in
    let now = classify m.thresholds s.used s.limit in
    (
      record m { levels = insert key now m.levels },
      (if level_beq now previous
          then none
          else some (record {
            kind = s.kind;
            previous_level = previous;
            level = now;
            used = s.used;
            limit = s.limit;
            device_index = s.device_index;
          })),
    )

-- The samples of a run, in order, and the events that they make.
pub observe_all : PressureMonitor → List PressureSample → PressureMonitor × List PressureEvent
observe_all m [] = (m, [])
observe_all m (s ∷ ss) =
    let (m', event) = observe m s in
    let (m'', events) = observe_all m' ss in
    elim event [ none ↦ (m'', events) | some e ↦ (m'', e ∷ events) ]
