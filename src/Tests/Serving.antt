-- ===== src/Tests/Serving.antt =====
-- The discovery server and the scheduler at concrete inputs.
use slimstream.Base.{ℕ, zero, suc, ◌+◌, ◌≡◌, refl, none, some, true, false, [], ◌∷◌}
use slimstream.Conn.Udp.{Endpoint, make_server, start}
use slimstream.Conn.Udp.Answers.{receive_all, answers, listening, receive_all-answers}
use slimstream.Scheduler as Scheduling
use slimstream.Scheduler.{SchedulerApi, Scheduler, Produced, produced, make_scheduler, process_task}
use slimstream.Scheduler.Tasks.{started, runs, Waiting, AfterOf, Task-After}

receive_all-answers_example :
    (e : Endpoint) × (receive_all
        (record { peer = 7; lost = false } ∷ record { peer = 8; lost = true } ∷ [])
        (start make_server)
      ≡ listening e
          (answers (record { peer = 7; lost = false } ∷ record { peer = 8; lost = true } ∷ []) []))
receive_all-answers_example =
    receive_all-answers (record { peer = 7; lost = false } ∷ record { peer = 8; lost = true } ∷ [])

-- a producer of so many chunks, which a consumer counts
abbrev give : ℕ → ℕ → Produced ℕ ℕ
give p c = elim p [ zero ↦ produced (some 100) 0 c | suc n ↦ produced none n (c + 1) ]

abbrev api : SchedulerApi ℕ ℕ
api = record {
  produce_chunk = give;
  producer_is_running = λ p. true;
  consumer_is_running = λ c. false;
  start_producer = λ p. p;
  start_consumer = λ c. c;
  stop_producer = λ p. p;
  stop_consumer = λ c. c;
}

abbrev begun : Scheduler ℕ ℕ
begun = Scheduling.start api (make_scheduler 7 0)

Task-After_example :
    Waiting begun.timer begun.handlers
    × AfterOf api (process_task api (record begun { handlers = 0 }))
unfolding Scheduling.start make_scheduler
Task-After_example = Task-After api (started 7 0) (runs refl)
