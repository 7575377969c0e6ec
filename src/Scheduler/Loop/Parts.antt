-- ===== src/Scheduler/Loop/Parts.antt =====
-- The three parts of a task, `_execute` cut at its awaits.
use comfy_ui_ng.Prelude.{
  ℕ, ◌≡◌, refl, false, List, Option, none, some, Result, ok, err, Text, text_eq, Bool-cases, inl,
  inr, codes,
}
use comfy_ui_ng.Prelude.Dict.{lookup, insert, lookup-insert_self, lookup-insert_ne}
use comfy_ui_ng.Json.{null}
use comfy_ui_ng.Jobs.Record.{preparing, running, completed}
use comfy_ui_ng.Scheduler.Loop.{
  Services, Scheduler, Job, Phase, starting, dispatching, sleeping, DispatchResult,
}
use comfy_ui_ng.Scheduler.Loop.Monad.{M, continue}
use comfy_ui_ng.Scheduler.Loop.Execute.{
  Course, Dispatched, returned, returned_other, raised, stopped, begin_body, begin, begin_at,
  written_as, put_value, save, dispatched_body, dispatched, dispatched_at,
}
use comfy_ui_ng.Scheduler.Loop.Invariant.{status?, Placed, IsHeld, IsSound, IsFree}
use comfy_ui_ng.Scheduler.Loop.Moves.{Ensures, transition-then}
use comfy_ui_ng.Scheduler.Loop.Places.{active-Sound, active-IsFree, sound-IsFree}
use comfy_ui_ng.Scheduler.Loop.Held.{phase-IsHeld}
use comfy_ui_ng.Scheduler.Loop.Queueing.{checkpoint-then}
use comfy_ui_ng.Scheduler.Loop.Tasks.{OnCourse, IsWorking, settled-Sound, recovered-Loose}

module _ {S : Services} (id : Text) where
  set_phase-Sound :
      {now : ℕ} (phase phase' : Phase S) (s : Scheduler S)
      → IsFree now id s.repository s.queues s.active
      → IsHeld s.broker s.active s.tokens s.reservations
      → lookup id s.active ≡ some phase
      → Placed (status? (lookup id s.repository.records)) false (some phase')
      → IsSound now (record s { active = insert id phase' s.active })
  set_phase-Sound {now} phase phase' s f h here p =
      active-Sound id _ phase'
        (active-IsFree id s.repository s.queues s.active (insert id phase' s.active)
          (λ j n. lookup-insert_ne id j phase' s.active n) f)
        (phase-IsHeld id phase phase' s.broker s.active s.tokens s.reservations here h)
        (lookup-insert_self id phase' s.active) p

  begin_body-Working :
      (now : ℕ) (s : Scheduler S)
      → IsSound now s
      → lookup id s.active ≡ some starting
      → Ensures (OnCourse now id) (IsWorking now id) (begin_body id now s)
  unfolding begin_body
  begin_body-Working now s h here =
      let (free, status) = sound-IsFree id s starting h here in
      transition-then (OnCourse now id) (IsWorking now id) _ id preparing running now null null s
        free
        (λ repo log r g st.
          checkpoint-then (OnCourse now id) (IsWorking now id) _ id (codes "between_blocks")
            (record s { repository = repo; published = log }) h.held
            (λ tokens held. set_phase-Sound starting (dispatching r) _ g held here st)
            (λ tokens held. record {
              free = g;
              busy = inr st;
              held = held;
              phase = starting;
              active = here;
            }))
        (record { free = free; busy = inl status; held = h.held; phase = starting; active = here })

  pub begin-Sound : (now : ℕ) (s : Scheduler S) → IsSound now s → IsSound now (begin id now s)
  unfolding begin
  begin-Sound now s h = go (lookup id s.active) refl
    where
      go : (p? : Option (Phase S)) → lookup id s.active ≡ p? → IsSound now (begin_at id now p? s)
      go none e = h
      go (some starting) e =
          settled-Sound id _ (recovered-Loose id now _ (begin_body-Working now s h e))
      go (some (dispatching r)) e = h
      go (some (sleeping r x)) e = h

  save-then :
      (Q : Course → Scheduler S → Type 0) (E : Scheduler S → Type 0) (k : Unit {0} → M S Course)
      (key? : Option Text) (result : DispatchResult) (cache_now : ℕ) (s : Scheduler S)
      → ((c : S.cache.State) (log : List _)
          → Ensures Q E (k tt (record s { cache = c; published = log })))
      → Ensures Q E (continue (save id key? result cache_now s) k)
  unfolding save put_value
  save-then Q E k none result cache_now s h = h s.cache s.published
  save-then Q E k (some key) result cache_now s h = elim (Bool-cases result.cacheable) [
    | inl p ↦
        rw p (
          put (S.cache.put s.cache key result.value result.size_bytes result.ttl_seconds cache_now))
    | inr p ↦ rw p (h s.cache s.published)
  ]
    where
      put :
          (m : S.cache.State × Result S.cache.CacheError (Unit {0}))
          → Ensures Q E (continue (written_as id m s) k)
      put (c, ok u) = h c s.published
      put (c, err e) = h c _

  dispatched_body-Working :
      (r : Job S) (outcome : Dispatched S.DispatchError) (now cache_now : ℕ) (s : Scheduler S)
      → IsSound now s
      → lookup id s.active ≡ some (dispatching r)
      → Ensures (OnCourse now id) (IsWorking now id) (dispatched_body id r outcome now cache_now s)
  unfolding dispatched_body
  dispatched_body-Working r outcome now cache_now s h here =
      go outcome (sound-IsFree id s (dispatching r) h here)
    where
      unmoved :
          IsFree now id s.repository s.queues s.active
            × (status? (lookup id s.repository.records) ≡ some running)
          → IsWorking now id s
      unmoved (free, status) = record {
        free = free;
        busy = inr status;
        held = h.held;
        phase = dispatching r;
        active = here;
      }

      go :
          (o : Dispatched S.DispatchError)
          → IsFree now id s.repository s.queues s.active
            × (status? (lookup id s.repository.records) ≡ some running)
          → Ensures (OnCourse now id) (IsWorking now id) (dispatched_body id r o now cache_now s)
      go (returned result) (free, status) =
          checkpoint-then (OnCourse now id) (IsWorking now id) _ id (codes "before_save") s h.held
            (λ tokens held.
              save-then (OnCourse now id) (IsWorking now id) _ r.cache_key result cache_now
                (record s { tokens = tokens })
                (λ c log.
                  transition-then (OnCourse now id) (IsWorking now id) _ id running completed now
                    result.value null (record s { tokens = tokens; cache = c; published = log })
                    free (λ repo log' r' g _. (inl g, held))
                    (record {
                      free = free;
                      busy = inr status;
                      held = held;
                      phase = dispatching r;
                      active = here;
                    })))
            (λ tokens held. record {
              free = free;
              busy = inr status;
              held = held;
              phase = dispatching r;
              active = here;
            })
      go returned_other p = unmoved p
      go (raised e) p = unmoved p
      go (stopped message) p = unmoved p

  pub dispatched-Sound :
      (outcome : Dispatched S.DispatchError) (now cache_now : ℕ) (s : Scheduler S)
      → IsSound now s
      → IsSound now (dispatched id outcome now cache_now s)
  unfolding dispatched
  dispatched-Sound outcome now cache_now s h = go (lookup id s.active) refl
    where
      go :
          (p? : Option (Phase S))
          → lookup id s.active ≡ p?
          → IsSound now (dispatched_at id outcome now cache_now p? s)
      go none e = h
      go (some starting) e = h
      go (some (dispatching r)) e =
          settled-Sound id _
            (recovered-Loose id now _ (dispatched_body-Working r outcome now cache_now s h e))
      go (some (sleeping r x)) e = h
