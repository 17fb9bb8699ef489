-- ===== src/Http/Pages.antt =====
-- backend/controllers: analytics_controller.go, worker_controller.go, health.go and sse_controller.go.
use task_execution_engine.Prelude.{
  ℕ, str_eq, Bool, true, false, String, Option, none, some, List, [], ◌∷◌,
}
use task_execution_engine.Analytics.Summary.{get_summary}
use task_execution_engine.Analytics.Throughput.{get_throughput}
use task_execution_engine.Analytics.Types.{get_type_breakdown}
use task_execution_engine.Registry.{InstanceWorkers, all_instances}
use task_execution_engine.Hub.{Hub, Event, subscribe, unsubscribe}
use task_execution_engine.Http.{
  healthy, summary, throughput, types, instances, stream, Backend, Moment, Server, Handled,
  with_status, respond,
}

-- c.Query("all") == "true"
abbrev pub all_clients : (String → String) → Bool
all_clients query = str_eq (query "all") "true"

unfoldable pub or_none : Option (List InstanceWorkers) → List InstanceWorkers
or_none none = []
or_none (some is) = is

module _ (B : Backend) where
  open B use {database, floats, reports, values, snapshots, time_text}

  unfoldable pub show_summary : Moment → String → (String → String) → Server B → Handled B
  unfolding respond
  show_summary m client_id query s =
      respond B 200 [] summary s
        (get_summary database floats reports (all_clients query) client_id m.now s.db)

  unfoldable pub show_throughput : Moment → String → (String → String) → Server B → Handled B
  unfolding respond
  show_throughput m client_id query s = respond B 200 [] throughput s (
      get_throughput database floats reports time_text (all_clients query) client_id m.now m.unix
        s.db)

  unfoldable pub show_types : String → (String → String) → Server B → Handled B
  unfolding respond
  show_types client_id query s =
      respond B 200 [] types s
        (get_type_breakdown database floats reports (all_clients query) client_id s.db)

  -- An error of the registry shows as an empty set.
  unfoldable pub list_workers : Server B → Handled B
  unfolding with_status or_none
  list_workers s =
      (s, with_status 200 [] (instances (or_none (all_instances values snapshots s.store))))

  unfoldable pub health_check : Server B → Handled B
  unfolding with_status
  health_check s = (s, with_status 200 [] healthy)

  -- The opening of the stream.
  unfoldable pub open_stream : String → Server B → Handled B
  unfolding with_status
  open_stream client_id s =
      let (hub, handle) = subscribe s.hub client_id in
      (
        record s { hub = hub },
        with_status 200
            (("Content-Type", "text/event-stream")
              ∷ ("Cache-Control", "no-cache")
              ∷ ("Connection", "keep-alive")
              ∷ [])
            (stream handle),
      )

-- What the `select` of the stream wakes on: the channel, with no event if the hub closed it; the
-- ticker, at a time; or the end of the request.
pub data Wake : Type 0 where
  received : Option Event → Wake
  ticked : ℕ → Wake
  disconnected : Wake

pub data Frame : Type 0 where
  event : Event → Frame
  heartbeat : ℕ → Frame

-- The frame that is written, and whether the loop goes on.
unfoldable pub stream_turn : Wake → Option Frame × Bool
stream_turn (received none) = (none, false)
stream_turn (received (some e)) = (some (event e), true)
stream_turn (ticked unix) = (some (heartbeat unix), true)
stream_turn disconnected = (none, false)

-- The deferred Unsubscribe.
unfoldable pub close_stream : Hub → ℕ → Option Hub
close_stream h handle = unsubscribe h handle
