-- ===== src/Hub.antt =====
-- backend/sse/hub.go: the hub of the live dashboards. A subscriber is known by a handle, as by its
-- pointer; its channel holds the events that were sent and not yet read, at most 16. The hub's map
-- has no order, so the order of the list stands for none.
pub mod Isolation
use task_execution_engine.Prelude.{
  ℕ, ◌+◌, ◌==◌, ltb, str_eq, Bool, true, false, not, String, Option, none, some, List, [], ◌∷◌,
  ◌++◌, map, length, filter, any, if◌then◌else◌,
}

pub record Event : Type 0 where
  pub event_type : String
  pub task_id : ℕ
  pub client_id : String
  pub status : String
  pub time : ℕ

pub record Subscriber : Type 0 where
  pub handle : ℕ
  pub client_id : String
  pub buffer : List Event

-- `closed` holds the subscribers whose channel was closed, `fresh` the next new pointer.
pub record Hub : Type 0 where
  pub subs : List Subscriber
  pub closed : List ℕ
  pub fresh : ℕ

abbrev pub capacity : ℕ
capacity = 16

unfoldable pub new_hub : Hub
new_hub = record { subs = []; closed = []; fresh = 0 }

unfoldable pub subscribe : Hub → String → Hub × ℕ
subscribe h client_id = (
  record h {
    subs = record { handle = h.fresh; client_id = client_id; buffer = [] } ∷ h.subs;
    fresh = h.fresh + 1;
  },
  h.fresh,
)

-- Closing a closed channel is a panic, `none`.
unfoldable pub unsubscribe : Hub → ℕ → Option Hub
unsubscribe h i =
    if any (λ j. j == i) h.closed
    then none
    else some (record h { subs = filter (λ s. not (s.handle == i)) h.subs; closed = i ∷ h.closed })

-- One turn of the loop of PublishTaskEvent: the `select` sends if the channel has room.
unfoldable pub offer : Event → Subscriber → Subscriber
offer e s =
    if str_eq s.client_id e.client_id
    then (if ltb (length s.buffer) capacity then record s { buffer = s.buffer ++ e ∷ [] } else s)
    else s

unfoldable pub new_event : ℕ → String → ℕ → String → String → Event
new_event now event_type task_id client_id status = record {
  event_type = event_type;
  task_id = task_id;
  client_id = client_id;
  status = status;
  time = now;
}

unfoldable pub publish_task_event : Hub → ℕ → String → ℕ → String → String → Hub
unfolding offer new_event
publish_task_event h now event_type task_id client_id status = record h {
  subs = map (offer (new_event now event_type task_id client_id status)) h.subs;
}

unfoldable pub tail : List Event → List Event
tail [] = []
tail (e ∷ es) = es

-- The stream's `<-sub.Events()` takes the oldest event of its channel.
unfoldable pub read_from : ℕ → Subscriber → Subscriber
unfolding tail
read_from i s = if s.handle == i then record s { buffer = tail s.buffer } else s
