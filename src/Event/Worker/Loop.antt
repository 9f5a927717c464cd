-- ===== src/Event/Worker/Loop.antt =====
-- `OptimizationWorker.run` and `run_one` of event_layer/worker.py: the loop over the messages.
use kuber.Base.{Option, none, some, List, [], ◌∷◌, if◌then◌else◌}
use kuber.Base.Result.{Error, other_error, ok, raise, stop_iteration}
use kuber.Agent.Exec.{Exec, pure, ◌>>=◌, ◌>>◌}
use kuber.Event.Topic
use kuber.Event.Bus.{Bus, ConsumedEvent, consume}
use kuber.Event.Worker.{WorkerWorld, WorkerConfig}
use kuber.Event.Worker.Process.{on_bus, process}

abbrev cancelled : Error
cancelled = other_error "CancelledError" ""

module _ {E : Type 0} (config : WorkerConfig E) where
  -- A read of the tasks: others act on the bus first, and where nothing is to claim the read waits
  -- on. To subscribe once more changes nothing.
  abbrev next_task : (Bus → Bus) → Exec Bus (Option ConsumedEvent)
  next_task others bus =
      consume Topic.optimization_requests Topic.optimization_consumer_group config.worker_id
        (others bus)

  abbrev process_if : Option ConsumedEvent → Exec (WorkerWorld E) (Unit {0})
  process_if none = pure tt
  process_if (some message) = process config message

  -- `run`, with what happens on the bus before each read. A closed bus ends the loop; at the
  -- end of the list the worker is cancelled.
  unfoldable run : List (Bus → Bus) → Exec (WorkerWorld E) (Unit {0})
  run [] w = (raise cancelled, w)
  run (others ∷ rest) w =
      if (others w.bus).closed
      then (ok tt, record w { bus = others w.bus })
      else (do message ← on_bus config (next_task others); process_if message; run rest) w

  -- `run_one`: the same up to the first message.
  unfoldable run_one : List (Bus → Bus) → Exec (WorkerWorld E) (Unit {0})
  run_one [] w = (raise cancelled, w)
  run_one (others ∷ rest) w =
      if (others w.bus).closed
      then (raise stop_iteration, record w { bus = others w.bus })
      else (do
        message ← on_bus config (next_task others)
        elim message [ none ↦ run_one rest | some claimed ↦ process config claimed ])
          w
