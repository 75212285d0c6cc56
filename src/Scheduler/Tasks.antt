-- ===== src/Scheduler/Tasks.antt =====
-- The tasks of the scheduler.
use slimstream.Base.{
  ℕ, ◌+◌, ◌≡◌, refl, Bool, true, false, Option, none, some, if_cases, arith, ltb, if◌then◌else◌,
  zero, suc,
}
use slimstream.Scheduler.{
  Scheduler, SchedulerApi, make_scheduler, start, stop, process_task, reschedule, guarded,
  is_running, Quantum, completed, interrupted, produce_chunks, chunks_to_process,
}

-- A task runs, from the processor or by the timer.
pub data Task {P C : Type 0} (api : SchedulerApi P C) : Scheduler P C → Scheduler P C → Type 0 where
  runs :
      {s : Scheduler P C} {n : ℕ}
      → s.handlers ≡ suc n
      → Task api s (process_task api (record s { handlers = n }))
  timer_fires : {s : Scheduler P C} {d : ℕ} → s.timer ≡ some d → Task api s (process_task api s)

-- All that can happen to a scheduler that is started once: a task runs, it is stopped, and its producer
-- and consumer change by themselves.
pub data Step {P C : Type 0} (api : SchedulerApi P C) : Scheduler P C → Scheduler P C → Type 0 where
  task : {s s' : Scheduler P C} → Task api s s' → Step api s s'
  stops : {s : Scheduler P C} → Step api s (stop api s)
  changes :
      {s : Scheduler P C} (p : P) (c : C) → Step api s (record s { producer = p; consumer = c })

pub data Reachable {P C : Type 0} (api : SchedulerApi P C) : Scheduler P C → Type 0 where
  started : (p : P) (c : C) → Reachable api (start api (make_scheduler p c))
  stepped : {s s' : Scheduler P C} → Reachable api s → Step api s s' → Reachable api s'

-- The tasks that wait: none, one in the processor, or one at the timer.
pub data Waiting : Option ℕ → ℕ → Type 0 where
  no_task : Waiting none 0
  submitted : Waiting none 1
  deferred : {d : ℕ} → Waiting (some (suc d)) 0

-- The tasks that wait after a task: one exactly if the scheduler runs.
pub data After : Bool → Option ℕ → ℕ → Type 0 where
  ends : After false none 0
  goes_on : After true none 1
  pauses : {d : ℕ} → After true (some (suc d)) 0

module _ {P C : Type 0} (api : SchedulerApi P C) where
  abbrev WaitingOf : Scheduler P C → Type 0
  WaitingOf s = Waiting s.timer s.handlers

  abbrev pub AfterOf : Scheduler P C → Type 0
  AfterOf s = After (is_running api s) s.timer s.handlers

  rescheduled :
      (delay : ℕ) (s : Scheduler P C)
      → is_running api s ≡ true
      → s.timer ≡ none
      → s.handlers ≡ 0
      → AfterOf (
          if ltb 0 delay
          then record s { timer = some delay }
          else record s { handlers = s.handlers + 1 })
  unfolding is_running
  rescheduled zero s r t h = rw (r, t, h) goes_on
  rescheduled (suc d) s r t h =
      if_cases AfterOf (ltb 0 (suc d)) (λ _. rw (r, h) pauses) (λ z. absurd (never z))
    where
      never : ltb 0 (suc d) ≡ false → ⊥
      never z = ground (arith, z)

  reschedule-After :
      (delay : ℕ) (s : Scheduler P C)
      → s.timer ≡ none
      → s.handlers ≡ 0
      → AfterOf (reschedule api delay s)
  unfolding reschedule
  reschedule-After delay s t h =
      if_cases AfterOf (is_running api s) (λ r. rescheduled delay s r t h) (λ r. rw (r, t, h) ends)

  guarded_timer :
      (q : Quantum P C) (s : Scheduler P C)
      → s.timer ≡ none
      → s.handlers ≡ 0
      → AfterOf (reschedule api (guarded api q s).0 (guarded api q s).1)
  unfolding stop
  guarded_timer (completed delay p c) s t h = reschedule-After delay _ t h
  guarded_timer (interrupted e p c) s t h = reschedule-After 0 _ t h

  process_task-After : (s : Scheduler P C) → s.handlers ≡ 0 → AfterOf (process_task api s)
  unfolding process_task
  process_task-After s h =
      guarded_timer (produce_chunks api (chunks_to_process api) s.producer s.consumer)
        (record s { timer = none }) refl h

  last_handler : {t : Option ℕ} {h n : ℕ} → h ≡ suc n → Waiting t h → n ≡ 0
  last_handler e no_task = absurd (ground (arith, e))
  last_handler e submitted = omega (arith, e)
  last_handler e deferred = absurd (ground (arith, e))

  no_handler : {t : Option ℕ} {h d : ℕ} → t ≡ some d → Waiting t h → h ≡ 0
  no_handler e no_task = absurd cc
  no_handler e submitted = absurd cc
  no_handler e deferred = refl

  After-Waiting : {r : Bool} {t : Option ℕ} {h : ℕ} → After r t h → Waiting t h
  After-Waiting ends = no_task
  After-Waiting goes_on = submitted
  After-Waiting pauses = deferred

  run-After : {s s' : Scheduler P C} → WaitingOf s → Task api s s' → AfterOf s'
  run-After w (runs {s} {n} e) = process_task-After (record s { handlers = n }) (last_handler e w)
  run-After w (timer_fires {s} e) = process_task-After s (no_handler e w)

  step-Waiting : {s s' : Scheduler P C} → WaitingOf s → Step api s s' → WaitingOf s'
  unfolding stop
  step-Waiting w (task t) = After-Waiting (run-After w t)
  step-Waiting w stops = w
  step-Waiting w (changes p c) = w

  pub Reachable-Waiting : {s : Scheduler P C} → Reachable api s → Waiting s.timer s.handlers
  unfolding start make_scheduler
  Reachable-Waiting (started p c) = submitted
  Reachable-Waiting (stepped r p) = step-Waiting (Reachable-Waiting r) p

  -- In a scheduler that is started once, however it is stopped and its producer and consumer change,
  -- one task at most waits at a time; and after a task has run, whether the producer or the consumer
  -- threw or not, one waits, in the processor or at the timer, exactly if the scheduler runs.
  pub Task-After :
      {s s' : Scheduler P C}
      → Reachable api s
      → Task api s s'
      → Waiting s.timer s.handlers × AfterOf s'
  Task-After r t = (Reachable-Waiting r, run-After (Reachable-Waiting r) t)
