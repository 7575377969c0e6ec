-- ===== src/Workers/Heartbeat.antt =====
-- workers/heartbeat.py: HeartbeatWatchdog. The clock's value is an argument of each call.
use comfy_ui_ng.Prelude.{ℕ, ◌-◌, Bool, Result, ok, ◌>>◌, raise_if, ltb, leb, String}

pub record HeartbeatWatchdog : Type 0 where
  pub timeout : ℕ
  pub last_seen : ℕ

-- `__init__`
pub create : (timeout now : ℕ) → Result String HeartbeatWatchdog
create timeout now = do
  raise_if (leb timeout 0) "heartbeat timeout must be positive and finite"
  ok (record { timeout = timeout; last_seen = now })

-- `max(0.0, clock() - last_seen)` is `now - last_seen` on ℕ.
pub age : HeartbeatWatchdog → (now : ℕ) → ℕ
age w now = now - w.last_seen

pub observe : HeartbeatWatchdog → (now : ℕ) → HeartbeatWatchdog
observe w now = record w { last_seen = now }

pub expired : HeartbeatWatchdog → (now : ℕ) → Bool
unfolding age
expired w now = ltb w.timeout (age w now)
