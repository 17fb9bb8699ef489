-- ===== src/Http/Router.antt =====
-- backend/routes/routes.go: the routes, and the authentication before those that are protected.
pub mod Access
pub mod Tenant
pub mod Isolation
use task_execution_engine.Prelude.{
  str_eq, String, ◌&&◌, Option, none, some, List, [], ◌∷◌, if◌then◌else◌,
}
use task_execution_engine.Http.{Request, message, Backend, Moment, Server, Handled, with_status}
use task_execution_engine.Http.Auth.{Admission, rejected, admitted, api_key_auth}
use task_execution_engine.Http.Tasks as Tasks
use task_execution_engine.Http.Pages.{
  show_summary, show_throughput, show_types, list_workers, health_check, open_stream,
}

pub data Route : Type 0 where
  create create_batch list : Route
  get_by_id cancel : String → Route
  summary throughput types workers events seed_demo clear_demo : Route

pub data Target : Type 0 where
  health : Target
  protected : Route → Target

unfoldable pub route_get_one : String → Option Target
route_get_one a =
    if str_eq a "health"
    then some health
    else if str_eq a "tasks"
    then some (protected list)
    else if str_eq a "analytics"
    then some (protected summary)
    else if str_eq a "workers"
    then some (protected workers)
    else none

unfoldable pub route_get_two : String → String → Option Target
route_get_two a b =
    if str_eq a "tasks"
    then some (protected (get_by_id b))
    else if str_eq a "analytics" && str_eq b "throughput"
    then some (protected throughput)
    else if str_eq a "analytics" && str_eq b "types"
    then some (protected types)
    else if str_eq a "sse" && str_eq b "events"
    then some (protected events)
    else none

unfoldable pub route_get : List String → Option Target
unfolding route_get_one route_get_two
route_get (a ∷ []) = route_get_one a
route_get (a ∷ b ∷ []) = route_get_two a b
route_get _ = none

unfoldable pub route_post_two : String → String → Option Target
route_post_two a b =
    if str_eq a "tasks" && str_eq b "batch"
    then some (protected create_batch)
    else if str_eq a "demo" && str_eq b "seed"
    then some (protected seed_demo)
    else if str_eq a "demo" && str_eq b "clear"
    then some (protected clear_demo)
    else none

unfoldable pub route_post : List String → Option Target
unfolding route_post_two
route_post (a ∷ []) = if str_eq a "tasks" then some (protected create) else none
route_post (a ∷ b ∷ []) = route_post_two a b
route_post (a ∷ b ∷ c ∷ []) =
    if str_eq a "tasks" && str_eq c "cancel" then some (protected (cancel b)) else none
route_post _ = none

unfoldable pub route_api : String → List String → Option Target
unfolding route_get route_post
route_api method path =
    if str_eq method "GET"
    then route_get path
    else if str_eq method "POST"
    then route_post path
    else none

-- A path's segments are not empty.
unfoldable pub route : String → List String → Option Target
unfolding route_api
route method [] = none
route method (a ∷ path) = if str_eq a "api" then route_api method path else none

module _ (B : Backend) (m : Moment) where
  unfoldable pub handle : Request → String → Route → Server B → Handled B
  handle r client_id create s = Tasks.create B m client_id r.body s
  handle r client_id create_batch s = Tasks.create_batch B m client_id r.body s
  handle r client_id list s = Tasks.list B client_id r.query s
  handle r client_id (get_by_id id) s = Tasks.get_by_id B client_id id s
  handle r client_id (cancel id) s = Tasks.cancel B m client_id id s
  handle r client_id summary s = show_summary B m client_id r.query s
  handle r client_id throughput s = show_throughput B m client_id r.query s
  handle r client_id types s = show_types B client_id r.query s
  handle r client_id workers s = list_workers B s
  handle r client_id events s = open_stream B client_id s
  handle r client_id seed_demo s = Tasks.seed_demo B m s
  handle r client_id clear_demo s = Tasks.clear_demo B s

  unfoldable pub admit : Request → Route → Admission B.floats.Float → Server B → Handled B
  unfolding handle
  admit r route (rejected response) s = (s, response)
  admit r route (admitted client_id) s = handle r client_id route s

  unfoldable pub dispatch : Request → Option Target → Server B → Handled B
  unfolding admit
  dispatch r none s = (s, with_status 404 [] (message "404 page not found"))
  dispatch r (some health) s = health_check B s
  dispatch r (some (protected route)) s =
      let (s', admission) = api_key_auth B r.api_key s in admit r route admission s'

  unfoldable pub serve : Request → Server B → Handled B
  unfolding dispatch
  serve r s = dispatch r (route r.method r.path) s
