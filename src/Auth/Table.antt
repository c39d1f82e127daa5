-- ===== src/Auth/Table.antt =====
-- internal/models/models.go: a table with a unique key, as internal/auth uses it through GORM. A
-- store of type `D` holds it; a call of the database may fail.
use go_proxy_server.Prelude.{◌≡◌, ◌++◌, List, ◌∷◌, Bytes, Result, ok, err, All, ◌≢◌}

-- `UNIQUE constraint failed` and `duplicate key`, by their text, and all else.
pub data DbError : Type 0 where
  unique_failed : DbError
  db_failed : DbError

abbrev pub Done : Type 0
Done = Result DbError (Unit {0})

-- `db.Find`, `db.Create` and `db.Unscoped().Where("<key> = ?", k).Delete`.
pub record Table (D Row : Type 0) : Type 0 where
  pub find : D → Result DbError (List Row)
  pub create : D → Row → D × Done
  pub delete : D → Bytes → D × Done

-- What the database documents of the rows: a new row stands somewhere among the others, if none has
-- its key; a deletion removes the rows of the key; what fails changes nothing.
pub record IsTable {D Row : Type 0} (t : Table D Row) (key : Row → Bytes) (rows : D → List Row)
    : Type 0 where
  pub found : (d : D) (rs : List Row) → t.find d ≡ ok rs → rs ≡ rows d
  pub created :
      (d d' : D) (r : Row)
      → t.create d r ≡ (d', ok tt)
      → (xs : List Row) × (ys : List Row) × (rows d ≡ xs ++ ys)
        × (rows d' ≡ xs ++ (r ∷ ys))
        × All (λ x. key x ≢ key r) (rows d)
  pub not_created :
      (d d' : D) (r : Row) (e : DbError) → t.create d r ≡ (d', err e) → rows d' ≡ rows d
  pub deleted : (d d' : D) (k : Bytes) → t.delete d k ≡ (d', ok tt) → All (λ x. key x ≢ k) (rows d')
  pub others_kept :
      (d d' : D) (k : Bytes) (xs ys : List Row) (r : Row)
      → t.delete d k ≡ (d', ok tt)
      → rows d ≡ xs ++ (r ∷ ys)
      → key r ≡ k
      → All (λ x. key x ≢ k) (xs ++ ys)
      → rows d' ≡ xs ++ ys
