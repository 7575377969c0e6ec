-- ===== src/Resources/Pressure/Levels.antt =====
-- Levels and the events that report them.
use comfy_ui_ng.Prelude.{
  ℕ, ◌*◌, ◌≤◌, ◌≡◌, ◌↔◌, refl, arith, true, not, ◌&&◌, List, [], ◌∷◌, Option, none, some, ok,
  if◌then◌else◌, Bool-cases, inl, inr, ◌≟◌, nat_eq, option_eq, pair_eq, pair_beq-iff_eq,
}
use comfy_ui_ng.Prelude.Dict.{lookup-insert}
use comfy_ui_ng.Resources.Pressure.{
  kind_eq, PressureLevel, normal, elevated, critical, level_beq, PressureThresholds,
  check_thresholds, PressureSample, Key, PressureEvent, PressureMonitor, classify, level_of,
  observe, observe_all,
}

abbrev pub severity : PressureLevel → ℕ
severity normal = 0
severity elevated = 1
severity critical = 2

-- More use of the same limit is never a lower level, and use up to the limit is critical under valid
-- thresholds.
classify_mono :
    (t : PressureThresholds) (used used' limit : ℕ)
    → check_thresholds t ≡ ok t
    → used ≤ used'
    → (severity (classify t used limit) ≤ severity (classify t used' limit))
      × (classify t limit limit ≡ critical)
unfolding classify check_thresholds
classify_mono t used used' limit v h =
    let more : used * t.scale ≤ used' * t.scale = grind arith in
    let most : t.critical_ratio * limit ≤ limit * t.scale =
      most_of t.critical_ratio limit t.scale (ground arith) in
    let less : t.elevated_ratio * limit ≤ t.critical_ratio * limit =
      least_of t.elevated_ratio t.critical_ratio limit (ground arith) in
    (ground arith, ground arith)
  where
    most_of : (c l s : ℕ) → c ≤ s → c * l ≤ l * s
    most_of c l s h = grind arith

    least_of : (e c l : ℕ) → e ≤ c → e * l ≤ c * l
    least_of e c l h = grind arith

-- What a sample does to the level of a key.
observed-level :
    (m : PressureMonitor) (s : PressureSample) (key : Key)
    → level_of (observe m s).0 key ≡ (
        if (s.kind, s.device_index) ≟ key
        then classify m.thresholds s.used s.limit
        else level_of m key)
unfolding observe level_of
observed-level m s key =
    let own : Key = (s.kind, s.device_index) in
    rw (lookup-insert own key (classify m.thresholds s.used s.limit) m.levels)
      (elim (Bool-cases (own ≟ key)) [ inl e ↦ rw e refl | inr e ↦ rw e refl ])

abbrev key_of : PressureEvent → Key
key_of e = (e.kind, e.device_index)

-- The level of a key that its events describe, read in order from a level. There is none if an event
-- does not start at the level before it, or reports no change.
pub replay : Key → PressureLevel → List PressureEvent → Option PressureLevel
replay key level [] = some level
replay key level (e ∷ es) =
    if key_of e ≟ key
    then (if level_beq e.previous_level level && not (level_beq e.level level)
        then replay key e.level es
        else none)
    else replay key level es

level_beq-iff_eq : (a b : PressureLevel) → (level_beq a b ≡ true) ↔ (a ≡ b)
level_beq-iff_eq a b = ground arith

-- The events of one sample.
reported : Option PressureEvent → List PressureEvent → List PressureEvent
reported none es = es
reported (some e) es = e ∷ es

observe_all-cons :
    (m : PressureMonitor) (s : PressureSample) (ss : List PressureSample)
    → let m' = (observe m s).0 in
      ((observe_all m (s ∷ ss)).0 ≡ (observe_all m' ss).0)
      × ((observe_all m (s ∷ ss)).1 ≡ reported (observe m s).1 (observe_all m' ss).1)
unfolding observe_all reported
observe_all-cons m s ss = ground arith

replay-reported :
    (m : PressureMonitor) (s : PressureSample) (key : Key) (es : List PressureEvent)
    → replay key (level_of m key) (reported (observe m s).1 es)
      ≡ replay key (level_of (observe m s).0 key) es
unfolding replay reported observe
replay-reported m s key es =
    let own : Key = (s.kind, s.device_index) in
    let now = classify m.thresholds s.used s.limit in
    rw (observed-level m s key) (
      ground (
        arith,
        pair_beq-iff_eq own key,
        level_beq-iff_eq now (level_of m own),
        level_beq-iff_eq (level_of m own) (level_of m own),
      ))

-- The events of a run of samples tell each key's level exactly: replaying them from the level before
-- the run gives the level after it, every event starting where the last one ended and changing it.
replay-observe_all :
    (m : PressureMonitor) (samples : List PressureSample) (key : Key)
    → replay key (level_of m key) (observe_all m samples).1
      ≡ some (level_of (observe_all m samples).0 key)
replay-observe_all m [] key = unfold observe_all replay in refl
replay-observe_all m (s ∷ ss) key =
    let (state, events) = observe_all-cons m s ss in
    rw (state, events, replay-reported m s key (observe_all (observe m s).0 ss).1)
      (replay-observe_all (observe m s).0 ss key)
