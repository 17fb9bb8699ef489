-- ===== src/Database/Keys.antt =====
-- The statements on the table api_keys, with their documented effect.
use task_execution_engine.Prelude.{
  ℕ, ◌≡◌, Bool, true, false, String, List, [], ◌∷◌, ◌++◌, Memᴰ, All, length, any, str_eq,
}
use task_execution_engine.Models.{ApiKey, Tables}
use task_execution_engine.Database.{Database}
use task_execution_engine.Database.Outcome.{
  Result, Error, Post, Faulted, record_not_found, no_task, not_cancellable, fault,
}

abbrev pub KeyNotFound : {F : Type 0} → Tables → (ApiKey → Bool) → Error F → Tables → Type 0
KeyNotFound T p record_not_found T' = (T' ≡ T) × All (λ k. p k ≡ false) T.api_keys
KeyNotFound T p (fault f) T' = T' ≡ T
KeyNotFound T p no_task T' = ⊥
KeyNotFound T p not_cancellable T' = ⊥

-- A client of a row that matches; and each such client.
pub record Plucked (T : Tables) (p : ApiKey → Bool) (cs : List String) : Type 0 where
  pub sound : All (λ c. (k : ApiKey) × Memᴰ k T.api_keys × (p k ≡ true) × (k.client_id ≡ c)) cs
  pub complete : All (λ k. p k ≡ true → any (str_eq k.client_id) cs ≡ true) T.api_keys

-- An inserted row is the given one under a new id, with its creation time. The column `active` has
-- the default true, which it takes in place of Go's zero value.
abbrev pub StoredKeys : List ApiKey → List ApiKey → Type 0
StoredKeys [] [] = Unit {0}
StoredKeys (k ∷ ks) (l ∷ ls) =
    (l ≡ record k { id = l.id; active = true; created_at = l.created_at }) × StoredKeys ks ls
StoredKeys [] (l ∷ ls) = ⊥
StoredKeys (k ∷ ks) [] = ⊥

pub record Keys (D : Database) : Type 0 where
  pub first_key : (ApiKey → Bool) → D.Db → D.Db × Result D.Fault ApiKey
  pub first_key_law :
      (p : ApiKey → Bool) (db : D.Db)
      → let (db', r) = first_key p db in
        Post
          (λ k T'. (T' ≡ D.tables db) × Memᴰ k (D.tables db).api_keys × (p k ≡ true))
          (KeyNotFound (D.tables db) p)
          r
          (D.tables db')
  pub pluck_clients : (ApiKey → Bool) → D.Db → D.Db × Result D.Fault (List String)
  pub pluck_clients_law :
      (p : ApiKey → Bool) (db : D.Db)
      → let (db', r) = pluck_clients p db in
        Post
          (λ cs T'. (T' ≡ D.tables db) × Plucked (D.tables db) p cs)
          (Faulted (D.tables db))
          r
          (D.tables db')
  pub count_keys : D.Db → D.Db × Result D.Fault ℕ
  pub count_keys_law :
      (db : D.Db)
      → let (db', r) = count_keys db in
        Post
          (λ n T'. (T' ≡ D.tables db) × (n ≡ length (D.tables db).api_keys))
          (Faulted (D.tables db))
          r
          (D.tables db')
  pub insert_keys : List ApiKey → D.Db → D.Db × Result D.Fault (List ApiKey)
  pub insert_keys_law :
      (ks : List ApiKey) (db : D.Db)
      → let (db', r) = insert_keys ks db in
        Post
          (λ ls T'.
            (T' ≡ record (D.tables db) { api_keys = (D.tables db).api_keys ++ ls })
            × StoredKeys ks ls)
          (Faulted (D.tables db))
          r
          (D.tables db')
