-- ===== src/Resources/Pressure/Tests.antt =====
-- The theorems on pressure at concrete samples.
use comfy_ui_ng.Prelude.{ℕ, ◌≡◌, refl, List, [], ◌∷◌, none, ok}
use comfy_ui_ng.Prelude.Dict.{lookup, insert}
use comfy_ui_ng.Resources.Pressure.{
  memory, critical, PressureThresholds, check_thresholds, PressureSample, PressureMonitor, classify,
  level_of, observe, observe_all,
}

abbrev thresholds : PressureThresholds
thresholds = record { scale = 100; elevated_ratio = 80; critical_ratio = 95 }

thresholds_valid : check_thresholds thresholds ≡ ok thresholds
unfolding check_thresholds
thresholds_valid = refl

abbrev monitor : PressureMonitor
monitor = record { thresholds = thresholds; levels = [] }

abbrev used : ℕ → PressureSample
used n = record { kind = memory; used = n; limit = 100; device_index = none }

abbrev samples : List PressureSample
samples = used 10 ∷ used 96 ∷ used 97 ∷ used 3 ∷ []

raised_then_gone :
    level_of (observe_all monitor (used 10 ∷ used 96 ∷ [])).0 (memory, none) ≡ critical
unfolding observe_all observe classify level_of lookup insert
raised_then_gone = refl
