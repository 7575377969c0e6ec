-- ===== src/Resources/Broker/Tests.antt =====
-- The broker on a host with one GPU.
use comfy_ui_ng.Prelude.{ℕ, ◌≡◌, arith, refl, true, false, List, [], ◌∷◌, none, some, ok}
use comfy_ui_ng.Prelude.Dict.{lookup}
use comfy_ui_ng.Resources.Pressure.{PressureMonitor}
use comfy_ui_ng.Resources.Budgets.{
  Demand, ResourceEstimate, estimate, nil, alternative, unchanged, offload, demand, vram_mb,
  heavy_jobs, from_inventory,
}
use comfy_ui_ng.Resources.Budgets.Tests.{host, reserves, limits, from_inventory-limits}
use comfy_ui_ng.Resources.Usage.{ResourceReservation, total, remaining, available, diagnostics}
use comfy_ui_ng.Resources.Broker.{
  ResourceBroker, AdmissionDecision, admitted, start, identifier, admit, reserve, suits, Call,
  admission, draining, run, with_limits,
}
use comfy_ui_ng.Resources.Broker.Room.{WithinLimits}
use comfy_ui_ng.Resources.Broker.Capacity.{run-start-WithinLimits}
use comfy_ui_ng.Resources.Usage.Fits.{Fits, lacks_iff}
use comfy_ui_ng.Resources.Broker.Admission.{suits_iff}
use comfy_ui_ng.Resources.Broker.Outcomes.{Restores, release-admit}

abbrev monitor : PressureMonitor
monitor = record {
  thresholds = record { scale = 100; elevated_ratio = 80; critical_ratio = 95 };
  levels = [];
}

abbrev broker : ResourceBroker
broker = with_limits monitor limits

start-broker : start host reserves monitor ≡ ok broker
unfolding start
start-broker = rw from_inventory-limits refl

abbrev needing : ℕ → Demand
needing vram = record {
  cpu_cores = 1;
  ram_bytes = 100;
  vram_mb = vram;
  gpu_index = some 0;
  heavy_gpu = true;
  pinned_ram_bytes = 0;
  concurrent_reads = 1;
  concurrent_writes = 0;
}

abbrev on_cpu : Demand
on_cpu = record {
  cpu_cores = 2;
  ram_bytes = 200;
  vram_mb = 0;
  gpu_index = none;
  heavy_gpu = false;
  pinned_ram_bytes = 0;
  concurrent_reads = 1;
  concurrent_writes = 0;
}

abbrev small : ResourceEstimate
small = estimate (needing 8) nil

abbrev large : ResourceEstimate
large = estimate (needing 64) (alternative offload (estimate on_cpu nil) nil)

abbrev calls : List Call
calls = admission small (some 7) 1 ∷ admission small none 2 ∷ draining ∷ admission large none 3 ∷ []

run-start-WithinLimits_example :
    (from_inventory host reserves ≡ ok (run broker calls).limits)
    × WithinLimits (run broker calls).limits (run broker calls).reservations
run-start-WithinLimits_example =
    run-start-WithinLimits host reserves monitor broker calls start-broker

abbrev held : ResourceReservation
held = record { object = 0; reservation_id = 7; estimate = small }

abbrev decision : AdmissionDecision
decision = record {
  outcome = admitted;
  action = unchanged;
  requested = small;
  selected = small;
  diagnostics = [];
  attempted_actions = unchanged ∷ [];
  reservation = some held;
}

small-Fits : Fits (demand small) (available limits [])
unfolding demand available remaining total vram_mb heavy_jobs lookup
small-Fits = record {
  cpu = omega arith;
  ram = omega arith;
  pinned = omega arith;
  reads = omega arith;
  writes = omega arith;
  gpu = (16, 1, refl, refl, omega arith, λ h. omega arith);
}

small-suits : suits broker small true ≡ true
unfolding diagnostics
small-suits =
    (suits_iff broker small true).1
      ((lacks_iff true (demand small) (available limits []) limits).1 small-Fits)

admit-decision : (admit broker small (some 7) 1).1 ≡ ok decision
unfolding admit reserve identifier lookup
admit-decision = rw small-suits refl

release-admit_example : Restores broker (admit broker small (some 7) 1).0 held
release-admit_example = release-admit broker small (some 7) 1 decision held admit-decision refl
