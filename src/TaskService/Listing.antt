-- ===== src/TaskService/Listing.antt =====
-- ListTasks of backend/services/task_service.go: the filters, the order and the page of a listing.
pub mod Select
pub mod Bounds
pub mod Page
use task_execution_engine.Prelude.{
  ℕ, ◌+◌, ◌-◌, ◌*◌, ◌/◌, ◌%◌, ◌^◌, ◌≤◌, ◌<◌, ltb, ◌==◌, str_eq, str_eq_iff, ◌≡◌, ◌⊎◌, inl, inr,
  refl, zero, suc, filter, [], ◌∷◌, Bool, true, false, ◌&&◌, ◌||◌, String, Option, none, some, List,
  length, count, Memᴰ, All, All_mono, arith, if◌then◌else◌, Bool-cases,
}
use mathlib.Core.List.{Perm}
use native.Mathlib.Nat.{div-add-mod', mod-lt}
use task_execution_engine.Prelude.Int.{ℤ, pos, negsuc}
use task_execution_engine.Models.{Task, Tables, status_name}
use task_execution_engine.Database.{Database}
use task_execution_engine.Database.Outcome.{Result, ok, err, Post, Faulted}
use task_execution_engine.Database.Program.{Program, ◌>>=◌, pure, Ends, bind-Ends}

pub record ListTasksFilter : Type 0 where
  pub status : String
  pub task_type : String
  pub priority : Option ℕ
  pub page : ℤ
  pub page_size : ℤ
  pub sort_by : String
  pub order : String
  pub all_clients : Bool
  pub filter_client : String

pub record ListTasksResult : Type 0 where
  pub tasks : List Task
  pub total : ℕ
  pub page : ℕ
  pub page_size : ℕ
  pub total_pages : ℕ

unfoldable pub is_allowed_sort_column : String → Bool
is_allowed_sort_column s =
    str_eq s "created_at" || str_eq s "priority" || str_eq s "status" || str_eq s "id"

-- A filter that is the empty text is not given; a column compares by the weight of its texts.
unfoldable pub matches_text : (String → String) → String → String → Bool
matches_text weight wanted column = str_eq wanted "" || str_eq (weight column) (weight wanted)

unfoldable pub matches_priority : Option ℕ → ℕ → Bool
matches_priority none column = true
matches_priority (some wanted) column = column == wanted

-- The WHERE clauses, joined by AND.
unfoldable pub is_listed : (String → String) → String → ListTasksFilter → Task → Bool
unfolding matches_text matches_priority
is_listed weight client_id f t =
    (f.all_clients || str_eq t.client_id client_id)
    && matches_text weight f.filter_client t.client_id
    && matches_text weight f.status (status_name t.status)
    && matches_text weight f.task_type t.task_type
    && matches_priority f.priority t.priority

-- The column of the ORDER BY.
unfoldable pub sort_column : String → String
sort_column sort_by = if is_allowed_sort_column sort_by then sort_by else "created_at"

unfoldable pub clamp_page : ℤ → ℕ
clamp_page (pos n) = if ltb n 1 then 1 else n
clamp_page (negsuc n) = 1

-- The default of 20 comes first, then the cap of 100.
unfoldable pub clamp_page_size : ℤ → ℕ
clamp_page_size (pos n) = if ltb n 1 then 20 else if ltb 100 n then 100 else n
clamp_page_size (negsuc n) = 20

-- `(page - 1) * pageSize`, as the 64 bits of an int.
unfoldable pub page_offset : ℕ → ℕ → ℕ
page_offset page page_size = ((page - 1) * page_size) % 2 ^ 64

-- Ceiling division; a count of rows is far below int64's maximum.
unfoldable pub count_pages : ℕ → ℕ → ℕ
count_pages total page_size = (total + page_size - 1) / page_size

-- LIMIT and OFFSET: the rows from the offset on, at most as many as the limit.
unfoldable pub slice : ℕ → ℕ → List Task → List Task
slice offset limit [] = []
slice zero zero (t ∷ ts) = []
slice zero (suc limit) (t ∷ ts) = t ∷ slice zero limit ts
slice (suc offset) limit (t ∷ ts) = slice offset limit ts

-- SELECT count(*) … WHERE p, and SELECT … WHERE p ORDER BY column direction LIMIT n OFFSET m,
-- where an OFFSET is left out that is negative as an int.
pub record Listings (D : Database) : Type 1 where
  pub count_tasks : (Task → Bool) → D.Db → D.Db × Result D.Fault ℕ
  pub count_law :
      (p : Task → Bool) (db : D.Db)
      → let (db', r) = count_tasks p db in
        Post
          (λ n T'. (T' ≡ D.tables db) × (n ≡ count p (D.tables db).tasks))
          (Faulted (D.tables db))
          r
          (D.tables db')
  -- ORDER BY column direction
  pub InOrder : String → String → List Task → Type 0
  pub page_tasks :
      (Task → Bool) → String → String → ℕ → ℕ → D.Db → D.Db × Result D.Fault (List Task)
  pub page_law :
      (p : Task → Bool) (column direction : String) (limit offset : ℕ) (db : D.Db)
      → let (db', r) = page_tasks p column direction limit offset db in
        Post
          (λ ts T'.
            (T' ≡ D.tables db)
            × ((matching : List Task) × Perm matching (filter p (D.tables db).tasks)
                × InOrder column direction matching
                × (ts ≡ slice (if ltb offset (2 ^ 63) then offset else 0) limit matching)))
          (Faulted (D.tables db))
          r
          (D.tables db')

-- strings.ToLower is a parameter.
unfoldable pub sort_order : (String → String) → String → String
sort_order to_lower order = if str_eq (to_lower order) "asc" then "asc" else "desc"

unfoldable pub list_result : ListTasksFilter → ℕ → List Task → ListTasksResult
unfolding clamp_page clamp_page_size count_pages
list_result f total tasks = record {
  tasks = tasks;
  total = total;
  page = clamp_page f.page;
  page_size = clamp_page_size f.page_size;
  total_pages = count_pages total (clamp_page_size f.page_size);
}

module _ (D : Database) (L : Listings D) (to_lower : String → String) where
  -- The query of the page, once the total is known.
  unfoldable pub fetch_page : String → ListTasksFilter → ℕ → Program D ListTasksResult
  unfolding is_listed sort_column sort_order clamp_page clamp_page_size page_offset list_result
  fetch_page client_id f total = do
    tasks ←
        L.page_tasks (is_listed D.weight client_id f) (sort_column f.sort_by)
          (sort_order to_lower f.order) (clamp_page_size f.page_size)
          (page_offset (clamp_page f.page) (clamp_page_size f.page_size))
    pure (list_result f total tasks)

  unfoldable pub list_tasks : String → ListTasksFilter → Program D ListTasksResult
  unfolding is_listed fetch_page
  list_tasks client_id f = do
    total ← L.count_tasks (is_listed D.weight client_id f)
    fetch_page client_id f total
