-- ===== src/TaskService/Listing/Select.antt =====
-- The rows and the order that a filter of ListTasks (backend/services/task_service.go) selects.
use task_execution_engine.Prelude.{
  ℕ, ==_iff, str_eq, str_eq_iff, ◌≡◌, ◌≢◌, ◌↔◌, ◌⊎◌, inl, inr, refl, Bool, true, false, ◌||◌,
  String, Option, none, some, arith, Bool-cases,
}
use task_execution_engine.Models.{Task, status_name}
use task_execution_engine.TaskService.Listing.{
  ListTasksFilter, is_listed, matches_text, matches_priority, is_allowed_sort_column, sort_column,
  sort_order,
}

-- The rows that a filter selects, written out: the client's own unless all clients were asked for,
-- and of each filter that is given, the rows whose column compares as equal to it.
pub record IsListed (weight : String → String) (client_id : String) (f : ListTasksFilter) (t : Task)
    : Type 0 where
  pub own : f.all_clients ≡ false → t.client_id ≡ client_id
  pub filtered : f.filter_client ≢ "" → weight t.client_id ≡ weight f.filter_client
  pub status : f.status ≢ "" → weight (status_name t.status) ≡ weight f.status
  pub task_type : f.task_type ≢ "" → weight t.task_type ≡ weight f.task_type
  pub priority : (n : ℕ) → f.priority ≡ some n → t.priority ≡ n

-- The column and the direction of the order that a filter asks for, or the defaults.
abbrev pub IsSorted : (String → String) → ListTasksFilter → String → String → Type 0
IsSorted to_lower f column direction =
    (((f.sort_by ≡ "created_at")
        ⊎ (f.sort_by ≡ "priority")
        ⊎ (f.sort_by ≡ "status")
        ⊎ (f.sort_by ≡ "id"))
      → column ≡ f.sort_by)
    × ((f.sort_by ≢ "created_at")
        → (f.sort_by ≢ "priority")
        → (f.sort_by ≢ "status")
        → (f.sort_by ≢ "id")
        → column ≡ "created_at")
    × (to_lower f.order ≡ "asc" → direction ≡ "asc")
    × (to_lower f.order ≢ "asc" → direction ≡ "desc")

module _ (weight : String → String) where
  matches_text_iff :
      (wanted column : String)
      → (matches_text weight wanted column ≡ true) ↔ (wanted ≢ "" → weight column ≡ weight wanted)
  unfolding matches_text
  matches_text_iff wanted column = (
    λ h ne.
        (str_eq_iff (weight column) (weight wanted)).0 (ground (arith, ne, str_eq_iff wanted "")),
    λ h. elim (Bool-cases (str_eq wanted "")) [
      | inl e ↦ rw e refl
      | inr e ↦ rw e (
          (str_eq_iff (weight column) (weight wanted)).1
            (h (λ q. clash e ((str_eq_iff wanted "").1 q))))
    ],
  )
    where
      clash : str_eq wanted "" ≡ false → str_eq wanted "" ≡ true → ⊥
      clash e q = cc

  matches_priority_iff :
      (o : Option ℕ) (column : ℕ)
      → (matches_priority o column ≡ true) ↔ ((n : ℕ) → o ≡ some n → column ≡ n)
  unfolding matches_priority
  matches_priority_iff none column = (λ h n e. cc, λ h. refl)
  matches_priority_iff (some k) column =
      (λ h n e. ground arith, λ h. (==_iff column k).1 (h k refl))

  own_iff : (b : Bool) (x y : String) → ((b || str_eq x y) ≡ true) ↔ (b ≡ false → x ≡ y)
  own_iff true x y = (λ h e. cc, λ h. refl)
  own_iff false x y = (λ h e. (str_eq_iff x y).0 h, λ h. (str_eq_iff x y).1 (h refl))

  pub is_listed-IsListed :
      (client_id : String) (f : ListTasksFilter) (t : Task)
      → (is_listed weight client_id f t ≡ true) ↔ IsListed weight client_id f t
  unfolding is_listed
  is_listed-IsListed client_id f t = (
    λ h. record {
      own = own.0 (ground arith);
      filtered = filtered.0 (ground arith);
      status = status.0 (ground arith);
      task_type = task_type.0 (ground arith);
      priority = priority.0 (ground arith);
    },
    λ h.
        rw
          (
            own.1 h.own,
            filtered.1 h.filtered,
            status.1 h.status,
            task_type.1 h.task_type,
            priority.1 h.priority,
          )
          refl,
  )
    where
      own :
          ((f.all_clients || str_eq t.client_id client_id) ≡ true)
          ↔ (f.all_clients ≡ false → t.client_id ≡ client_id)
      own = own_iff f.all_clients t.client_id client_id

      filtered :
          (matches_text weight f.filter_client t.client_id ≡ true)
          ↔ (f.filter_client ≢ "" → weight t.client_id ≡ weight f.filter_client)
      filtered = matches_text_iff f.filter_client t.client_id

      status :
          (matches_text weight f.status (status_name t.status) ≡ true)
          ↔ (f.status ≢ "" → weight (status_name t.status) ≡ weight f.status)
      status = matches_text_iff f.status (status_name t.status)

      task_type :
          (matches_text weight f.task_type t.task_type ≡ true)
          ↔ (f.task_type ≢ "" → weight t.task_type ≡ weight f.task_type)
      task_type = matches_text_iff f.task_type t.task_type

      priority :
          (matches_priority f.priority t.priority ≡ true)
          ↔ ((n : ℕ) → f.priority ≡ some n → t.priority ≡ n)
      priority = matches_priority_iff f.priority t.priority

pub sort-IsSorted :
    (to_lower : String → String) (f : ListTasksFilter)
    → IsSorted to_lower f (sort_column f.sort_by) (sort_order to_lower f.order)
unfolding sort_column sort_order is_allowed_sort_column
sort-IsSorted to_lower f = (
  λ h. ground (
    arith,
    str_eq_iff f.sort_by "created_at",
    str_eq_iff f.sort_by "priority",
    str_eq_iff f.sort_by "status",
    str_eq_iff f.sort_by "id",
  ),
  λ a b c d. ground (
    arith,
    str_eq_iff f.sort_by "created_at",
    str_eq_iff f.sort_by "priority",
    str_eq_iff f.sort_by "status",
    str_eq_iff f.sort_by "id",
  ),
  λ h. ground (arith, str_eq_iff (to_lower f.order) "asc"),
  λ h. ground (arith, str_eq_iff (to_lower f.order) "asc"),
)
