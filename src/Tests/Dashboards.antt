-- ===== src/Tests/Dashboards.antt =====
-- Two dashboards of two clients.
use task_execution_engine.Prelude.{◌≡◌, refl, some, List, [], ◌∷◌}
use task_execution_engine.Hub.{Hub, Subscriber, new_hub, publish_task_event}
use task_execution_engine.Hub.Isolation.{
  Call, subscribes, unsubscribes, publishes, reads, run, IsIsolated, run-IsIsolated, find_sub,
  Receives, publish_task_event-Receives,
}

abbrev calls : List Call
calls =
    subscribes "alpha"
    ∷ subscribes "beta"
    ∷ publishes 5 "task.started" 1 "alpha" "running"
    ∷ reads 0
    ∷ unsubscribes 1
    ∷ []

run_example : IsIsolated (run new_hub calls)
run_example = run-IsIsolated calls

abbrev dashboard : Subscriber
dashboard = record { handle = 0; client_id = "alpha"; buffer = [] }

abbrev hub : Hub
hub = record { subs = dashboard ∷ []; closed = []; fresh = 1 }

publish_example :
    (s' : Subscriber) × (find_sub 0
        (publish_task_event hub 5 "task.started" 1 "alpha" "running").subs
      ≡ some s')
    × Receives
        (record {
          event_type = "task.started";
          task_id = 1;
          client_id = "alpha";
          status = "running";
          time = 5;
        })
        dashboard
        s'
unfolding find_sub
publish_example =
    publish_task_event-Receives hub 5 "task.started" 1 "alpha" "running" 0 dashboard refl
