-- ===== src/TaskService/Listing/Page.antt =====
-- The page that ListTasks of backend/services/task_service.go returns.
use mathlib.Core.List.{Mem, Perm as Permuted}
use mathlib.Core.List.Perm
use task_execution_engine.Prelude.{
  ℕ, ◌+◌, ◌-◌, ◌*◌, ◌^◌, ◌≤◌, ◌<◌, ltb, ◌≡◌, ◌↔◌, refl, ap, ◌∙◌, Bool, true, String, List, length,
  count, filter, mem-filter, All, if◌then◌else◌,
}
use task_execution_engine.Prelude.Int.{pos}
use task_execution_engine.Models.{Task, Tables}
use task_execution_engine.Database.{Database}
use task_execution_engine.Database.Outcome.{Faulted}
use task_execution_engine.Database.Program.{pure, Ends, reads-Ends}
use task_execution_engine.TaskService.Listing.{
  ListTasksFilter, ListTasksResult, Listings, is_listed, sort_column, sort_order, clamp_page,
  clamp_page_size, page_offset, list_result, slice, fetch_page, list_tasks,
}
use task_execution_engine.TaskService.Listing.Select.{
  IsListed, IsSorted, is_listed-IsListed, sort-IsSorted,
}
use task_execution_engine.TaskService.Listing.Bounds.{
  clamp_page_bound, clamp_page_size_bound, count_pages_bound, clamp_page_asked,
  clamp_page_size_asked, offset-fits, length-slice-le, All-slice, all_of_mem,
}

-- A page of a listing, with the numbers that go with it: `selected` tells the rows that the filter
-- selects, and `matching` are these, in the order that is asked for.
pub record Listed (D : Database) (L : Listings D) (to_lower : String → String) (T : Tables)
    (client_id : String) (f : ListTasksFilter) (r : ListTasksResult) (T' : Tables) : Type 0 where
  pub same : T' ≡ T
  pub selected : Task → Bool
  pub exactly : (t : Task) → (selected t ≡ true) ↔ IsListed D.weight client_id f t
  pub total : r.total ≡ count selected T.tasks
  pub matching : List Task
  pub all : Permuted matching (filter selected T.tasks)
  pub column : String
  pub direction : String
  pub sorted : IsSorted to_lower f column direction
  pub ordered : L.InOrder column direction matching
  pub rows : All (λ t. Mem t T.tasks × IsListed D.weight client_id f t) r.tasks
  pub page_rows :
      (r.page - 1) * r.page_size < 2 ^ 63
      → r.tasks ≡ slice ((r.page - 1) * r.page_size) r.page_size matching
  pub short : length r.tasks ≤ r.page_size
  pub page : 1 ≤ r.page
  pub page_asked : (n : ℕ) → f.page ≡ pos n → 1 ≤ n → r.page ≡ n
  pub size : (1 ≤ r.page_size) × (r.page_size ≤ 100)
  pub size_asked : (n : ℕ) → f.page_size ≡ pos n → 1 ≤ n → n ≤ 100 → r.page_size ≡ n
  pub enough : r.total ≤ r.total_pages * r.page_size
  pub no_more : r.total_pages * r.page_size < r.total + r.page_size

module _ (D : Database) (L : Listings D) (to_lower : String → String) (client_id : String)
    (f : ListTasksFilter) where
  page_of :
      (T T' : Tables) (n : ℕ) (ts matching : List Task)
      → T' ≡ T
      → n ≡ count (is_listed D.weight client_id f) T.tasks
      → Permuted matching (filter (is_listed D.weight client_id f) T.tasks)
      → L.InOrder (sort_column f.sort_by) (sort_order to_lower f.order) matching
      → let offset = page_offset (clamp_page f.page) (clamp_page_size f.page_size) in
        ts
          ≡ slice (if ltb offset (2 ^ 63) then offset else 0) (clamp_page_size f.page_size) matching
        → Listed D L to_lower T client_id f (list_result f n ts) T'
  unfolding list_result
  page_of T T' n ts matching same total all ordered cut =
      let size = clamp_page_size f.page_size in
      let bounds = clamp_page_size_bound f.page_size in
      record {
        same = same;
        selected = is_listed D.weight client_id f;
        exactly = is_listed-IsListed D.weight client_id f;
        total = total;
        matching = matching;
        all = all;
        column = sort_column f.sort_by;
        direction = sort_order to_lower f.order;
        sorted = sort-IsSorted to_lower f;
        ordered = ordered;
        rows = rw cut (
            All-slice _ _ size matching (
              all_of_mem _ matching (λ t m.
                let (stored, passes) = (mem-filter _ T.tasks).0 ((Perm.mem_iff all).0 m) in
                (stored, (is_listed-IsListed D.weight client_id f t).0 passes))));
        page_rows = λ fits.
            cut ∙ ap (λ k. slice k size matching) (offset-fits (clamp_page f.page) size fits);
        short = rw cut (length-slice-le _ size matching);
        page = clamp_page_bound f.page;
        page_asked = clamp_page_asked f.page;
        size = bounds;
        size_asked = clamp_page_size_asked f.page_size;
        enough = (count_pages_bound n size bounds.0).0;
        no_more = (count_pages_bound n size bounds.0).1;
      }

-- ListTasks writes nothing. Its total counts the stored rows that the filter selects, exactly those
-- that pass each filter that is given and are the client's own unless all clients are asked for. Its
-- page is the slice of these rows from (page - 1) * page_size on, of page_size rows at most, if that
-- offset fits an int; they are in the order of the column and the direction that are asked for, or
-- of created_at and desc where those are not allowed. Page and page_size are those that are asked
-- for where they are in their bounds, from 1, and from 1 to 100; and the pages are just enough to
-- hold the total. If the database fails, nothing is changed.
pub list_tasks-Listed :
    (D : Database) (L : Listings D) (to_lower : String → String) (client_id : String)
    (f : ListTasksFilter) (db : D.Db)
    → Ends D
        (Listed D L to_lower (D.tables db) client_id f)
        (Faulted (D.tables db))
        (list_tasks D L to_lower client_id f db)
unfolding list_tasks fetch_page list_result
list_tasks-Listed D L to_lower client_id f db =
    let T = D.tables db in
    let p = is_listed D.weight client_id f in
    let size = clamp_page_size f.page_size in
    let column = sort_column f.sort_by in
    let direction = sort_order to_lower f.order in
    let offset = page_offset (clamp_page f.page) size in
    reads-Ends D (λ S n. n ≡ count p S.tasks) (Listed D L to_lower T client_id f) T
      (L.count_tasks p) (fetch_page D L to_lower client_id f) db refl (L.count_law p db)
      (λ n db1 same total.
        reads-Ends D
          (λ S ts.
            (matching : List Task) × Permuted matching (filter p S.tasks)
            × L.InOrder column direction matching
            × (ts ≡ slice (if ltb offset (2 ^ 63) then offset else 0) size matching))
          (Listed D L to_lower T client_id f) T (L.page_tasks p column direction size offset)
          (λ ts. pure (list_result f n ts)) db1 same (L.page_law p column direction size offset db1)
          (λ ts db2 same' (matching, all, ordered, cut).
            page_of D L to_lower client_id f T (D.tables db2) n ts matching same' total all ordered
              cut))
