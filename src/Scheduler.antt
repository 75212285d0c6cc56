-- ===== src/Scheduler.antt =====
-- src/slim/Scheduler.hpp: chunks from the producer to the consumer, a few in each task.
pub mod Tasks
use slimstream.Base.{
  ℕ, zero, suc, ◌+◌, ◌-◌, Bool, true, false, ◌||◌, Option, none, some, ltb, ◌==◌, if◌then◌else◌,
}
use slimstream.Exception.{Exception}

-- What produceChunk comes to, with the producer and the consumer as they are then: a pause that it asks
-- for, or an exception, its own or the consumer's.
pub data Produced (P C : Type 0) : Type 0 where
  produced : Option ℕ → P → C → Produced P C
  raised : Exception → P → C → Produced P C

-- The calls of a producer and of a consumer. `produce_chunk` hands the consumer's chunks to
-- consumeChunk; both kinds of `stop` are less their callback.
pub record SchedulerApi (P C : Type 0) : Type 0 where
  pub produce_chunk : P → C → Produced P C
  pub producer_is_running : P → Bool
  pub consumer_is_running : C → Bool
  pub start_producer : P → P
  pub start_consumer : C → C
  pub stop_producer : P → P
  pub stop_consumer : C → C

-- `timer` is the deferred task and its delay, `handlers` the number of tasks that the processor is to
-- run at once.
pub record Scheduler (P C : Type 0) : Type 0 where
  pub producer : P
  pub consumer : C
  pub timer : Option ℕ
  pub handlers : ℕ

unfoldable pub make_scheduler : {P C : Type 0} → P → C → Scheduler P C
make_scheduler p c = record { producer = p; consumer = c; timer = none; handlers = 0 }

-- What the loop of a task comes to: the pause to make, or an exception.
pub data Quantum (P C : Type 0) : Type 0 where
  completed : ℕ → P → C → Quantum P C
  interrupted : Exception → P → C → Quantum P C

abbrev pub value_or : Option ℕ → ℕ
value_or none = 0
value_or (some delay) = delay

module _ {P C : Type 0} (api : SchedulerApi P C) where
  unfoldable pub is_running : Scheduler P C → Bool
  is_running s = api.producer_is_running s.producer || api.consumer_is_running s.consumer

  unfoldable pub start : Scheduler P C → Scheduler P C
  start s = record s {
    producer = api.start_producer s.producer;
    consumer = api.start_consumer s.consumer;
    handlers = s.handlers + 1;
  }

  -- The consumer is stopped by the producer's callback.
  unfoldable pub stop : Scheduler P C → Scheduler P C
  stop s = record s {
    producer = api.stop_producer s.producer;
    consumer = api.stop_consumer s.consumer;
  }

  -- The loop goes on until a pause is asked for, for at most so many chunks.
  abbrev pub pause_or : ℕ → Quantum P C → P → C → Quantum P C
  pause_or delay next p c = if delay == 0 then next else completed delay p c

  unfoldable pub produce_chunks : ℕ → P → C → Quantum P C
  produce_chunks zero p c = completed 0 p c
  produce_chunks (suc n) p c = elim (api.produce_chunk p c) [
    | produced delay p' c' ↦ pause_or (value_or delay) (produce_chunks n p' c') p' c'
    | raised e p' c' ↦ interrupted e p' c'
  ]

  abbrev pub chunks_to_process : ℕ
  chunks_to_process = 5

  -- An exception of the loop stops the scheduler, and is logged.
  abbrev pub guarded : Quantum P C → Scheduler P C → ℕ × Scheduler P C
  guarded (completed delay p c) s = (delay, record s { producer = p; consumer = c })
  guarded (interrupted e p c) s = (0, stop (record s { producer = p; consumer = c }))

  -- The next task is submitted if there is more to process.
  unfoldable pub reschedule : ℕ → Scheduler P C → Scheduler P C
  reschedule delay s =
      if is_running s
      then (if ltb 0 delay
          then record s { timer = some delay }
          else record s { handlers = s.handlers + 1 })
      else s

  unfoldable pub process_task : Scheduler P C → Scheduler P C
  process_task s =
      let (delay, s') =
        guarded (produce_chunks chunks_to_process s.producer s.consumer)
          (record s { timer = none }) in
      reschedule delay s'
