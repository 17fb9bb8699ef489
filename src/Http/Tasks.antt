-- ===== src/Http/Tasks.antt =====
-- backend/controllers/task_controller.go.
pub mod Submit
pub mod Refusal
pub mod Fetch
use Prim.Native.String.{◌++◌ as text_append}
use task_execution_engine.Prelude.{
  ℕ, zero, suc, ltb, leb, str_eq, Bool, true, false, ◌&&◌, not, String, Option, none, some, List,
  [], ◌∷◌, length, if◌then◌else◌,
}
use task_execution_engine.Prelude.Int.{ℤ, pos, negsuc}
use task_execution_engine.Decimal.{print, parse_uint, atoi}
use task_execution_engine.TaskService.{
  CreateTaskInput, create_task, batch_create_tasks, get_task, cancel_task, clear_all_data,
}
use task_execution_engine.TaskService.Listing.{ListTasksFilter, list_tasks}
use task_execution_engine.TaskService.Demo.{add_demo_tasks}
use task_execution_engine.RateLimit.{Answer, allowed, denied, failed, allow_n}
use task_execution_engine.Http.{
  Request, Body, message, task, created, added, page, cleared, Response, TaskBody, Decoded, decoded,
  malformed, Json, Backend, Moment, Server, Handled, with_status, bad_request, respond,
}

-- The request's input, or the text of what is wrong with it.
pub data Bound (A : Type 0) : Type 0 where
  bound : A → Bound A
  refused : String → Bound A

-- max_retries: binding:"omitempty,min=0"
unfoldable pub bind_retries : Option ℤ → Option (Option ℕ)
bind_retries none = some none
bind_retries (some (pos n)) = some (some n)
bind_retries (some (negsuc n)) = none

unfoldable pub input_of : TaskBody → Option (Option ℕ) → Option CreateTaskInput
input_of b none = none
input_of b (some retries) = some (record {
  task_type = b.task_type;
  priority = b.priority;
  payload = b.payload;
  max_retries = retries;
})

-- type: binding:"required"; priority: binding:"required,min=1,max=5"
unfoldable pub bind_task : TaskBody → Option CreateTaskInput
unfolding bind_retries input_of
bind_task b =
    if not (str_eq b.task_type "") && leb 1 b.priority && leb b.priority 5
    then input_of b (bind_retries b.max_retries)
    else none

unfoldable pub cons_input :
    Option CreateTaskInput → Option (List CreateTaskInput) → Option (List CreateTaskInput)
cons_input none is = none
cons_input (some i) none = none
cons_input (some i) (some is) = some (i ∷ is)

unfoldable pub bind_each : List TaskBody → Option (List CreateTaskInput)
unfolding bind_task cons_input
bind_each [] = some []
bind_each (b ∷ bs) = cons_input (bind_task b) (bind_each bs)

-- binding:"required,min=1,max=200,dive"
unfoldable pub bind_batch : List TaskBody → Option (List CreateTaskInput)
unfolding bind_each
bind_batch bs = if leb 1 (length bs) && leb (length bs) 200 then bind_each bs else none

unfoldable pub bound_or : {A : Type 0} → String → Option A → Bound A
bound_or text none = refused text
bound_or text (some a) = bound a

-- ShouldBindJSON for each of the two bodies.
module _ (J : Json) where
  unfoldable pub validate_task : Decoded TaskBody → Bound CreateTaskInput
  unfolding bind_task bound_or
  validate_task (malformed text) = refused text
  validate_task (decoded b) = bound_or (J.refusal b) (bind_task b)

  unfoldable pub validate_batch : Decoded (List TaskBody) → Bound (List CreateTaskInput)
  unfolding bind_batch bound_or
  validate_batch (malformed text) = refused text
  validate_batch (decoded bs) = bound_or (J.batch_refusal bs) (bind_batch bs)

-- What rateLimited does: the handler goes on, with a header or none, or it has answered.
pub data Gate (F : Type 0) : Type 0 where
  passes : List (String × String) → Gate F
  limited : Response F → Gate F

unfoldable pub limit_text : ℕ → String
limit_text max =
    text_append "rate limit: max "
      (text_append (print max) " tasks per minute — submit fewer or wait")

-- An error of the limiter lets the request pass.
unfoldable pub gate_of : {F : Type 0} → ℕ → Answer → Gate F
unfolding limit_text with_status
gate_of max failed = passes []
gate_of max denied =
    limited (with_status 429 (("X-RateLimit-Limit", print max) ∷ []) (message (limit_text max)))
gate_of max (allowed remaining) = passes (("X-RateLimit-Remaining", print remaining) ∷ [])

-- `priority` is set only by a number that fits; a page that is no number stays 0.
unfoldable pub page_number : Option ℤ → ℤ
page_number none = pos 0
page_number (some v) = v

unfoldable pub filter_of : (String → String) → ListTasksFilter
unfolding page_number
filter_of query = record {
  status = query "status";
  task_type = query "type";
  priority = if str_eq (query "priority") "" then none else parse_uint 8 (query "priority");
  page = page_number (atoi (query "page"));
  page_size = page_number (atoi (query "page_size"));
  sort_by = query "sort_by";
  order = query "order";
  all_clients = str_eq (query "all") "true";
  filter_client = query "client";
}

abbrev pub demo_count : ℕ
demo_count = 50

module _ (B : Backend) where
  open B use {database, listings, keys, floats, redis, limiter, json, to_lower}

  unfoldable pub rate_limited : Moment → String → ℕ → Server B → Server B × Gate floats.Float
  unfolding gate_of
  rate_limited m client_id n s =
      let (store, a) = allow_n redis limiter client_id n m.now m.base s.store in
      (record s { store = store }, gate_of limiter.max a)

  unfoldable pub create_gated : String → CreateTaskInput → Gate floats.Float → Server B → Handled B
  unfolding respond
  create_gated client_id input (limited r) s = (s, r)
  create_gated client_id input (passes headers) s =
      respond B 201 headers task s (create_task database client_id input s.db)

  unfoldable pub create_bound : Moment → String → Bound CreateTaskInput → Server B → Handled B
  unfolding bad_request rate_limited create_gated
  create_bound m client_id (refused text) s = (s, bad_request text)
  create_bound m client_id (bound input) s =
      let (s', gate) = rate_limited m client_id 1 s in create_gated client_id input gate s'

  unfoldable pub create : Moment → String → String → Server B → Handled B
  unfolding validate_task create_bound
  create m client_id body s =
      create_bound m client_id (validate_task json (json.decode_task body)) s

  unfoldable pub batch_gated :
      String → List CreateTaskInput → Gate floats.Float → Server B → Handled B
  unfolding respond
  batch_gated client_id inputs (limited r) s = (s, r)
  batch_gated client_id inputs (passes headers) s =
      respond B 201 headers created s (batch_create_tasks database client_id inputs s.db)

  unfoldable pub batch_bound : Moment → String → Bound (List CreateTaskInput) → Server B → Handled B
  unfolding bad_request rate_limited batch_gated
  batch_bound m client_id (refused text) s = (s, bad_request text)
  batch_bound m client_id (bound inputs) s =
      let (s', gate) = rate_limited m client_id (length inputs) s in
      batch_gated client_id inputs gate s'

  unfoldable pub create_batch : Moment → String → String → Server B → Handled B
  unfolding validate_batch batch_bound
  create_batch m client_id body s =
      batch_bound m client_id (validate_batch json (json.decode_batch body)) s

  unfoldable pub list : String → (String → String) → Server B → Handled B
  unfolding filter_of respond
  list client_id query s =
      respond B 200 [] page s
        (list_tasks database listings to_lower client_id (filter_of query) s.db)

  unfoldable pub get_parsed : String → Option ℕ → Server B → Handled B
  unfolding bad_request respond
  get_parsed client_id none s = (s, bad_request "invalid task id")
  get_parsed client_id (some id) s = respond B 200 [] task s (get_task database client_id id s.db)

  unfoldable pub get_by_id : String → String → Server B → Handled B
  unfolding get_parsed
  get_by_id client_id id s = get_parsed client_id (parse_uint 64 id) s

  unfoldable pub cancel_parsed : Moment → String → Option ℕ → Server B → Handled B
  unfolding bad_request respond
  cancel_parsed m client_id none s = (s, bad_request "invalid task id")
  cancel_parsed m client_id (some id) s =
      respond B 200 [] task s (cancel_task database m.now client_id id s.db)

  unfoldable pub cancel : Moment → String → String → Server B → Handled B
  unfolding cancel_parsed
  cancel m client_id id s = cancel_parsed m client_id (parse_uint 64 id) s

  unfoldable pub seed_demo : Moment → Server B → Handled B
  unfolding respond
  seed_demo m s =
      respond B 200 [] (λ _. added demo_count) s
        (add_demo_tasks database keys m.draw demo_count s.db)

  unfoldable pub clear_demo : Server B → Handled B
  unfolding respond
  clear_demo s = respond B 200 [] (λ _. cleared) s (clear_all_data database s.db)
