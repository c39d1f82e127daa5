-- ===== src/Tests/Database.antt =====
-- A database for the tests: a table with a unique key is the list of its rows.
use go_proxy_server.Prelude.{
  ◌≡◌, ◌≢◌, refl, ap, sym, subst, ◌∙◌, Bool, true, false, ◌||◌, if◌then◌else◌, List, [], ◌∷◌, ◌++◌,
  Bytes, bytes_dec, ok, err, All, arith, ite, if_pos, if_neg,
}
use go_proxy_server.Prelude.Strings.{same}
use go_proxy_server.Auth.Table.{DbError, unique_failed, Done, Table, IsTable}

module _ {Row : Type 0} (key : Row → Bytes) where
  unfoldable pub has_key : Bytes → List Row → Bool
  has_key k [] = false
  has_key k (x ∷ xs) = same (key x) k || has_key k xs

  unfoldable pub without : Bytes → List Row → List Row
  without k [] = []
  without k (x ∷ xs) = ite (bytes_dec (key x) k) (without k xs) (x ∷ without k xs)

  unfoldable pub memory : Table (List Row) Row
  unfolding has_key without
  memory = record {
    find = λ d. ok d;
    create = λ d r. if has_key (key r) d then (d, err unique_failed) else (r ∷ d, ok tt);
    delete = λ d k. (without k d, ok tt);
  }

  fresh_lem : (k : Bytes) (xs : List Row) → has_key k xs ≡ false → All (λ x. key x ≢ k) xs
  unfolding has_key same
  fresh_lem k [] e = tt
  fresh_lem k (x ∷ xs) e = ((λ f. ground arith), fresh_lem k xs (ground arith))

  without-All : (k : Bytes) (xs : List Row) → All (λ x. key x ≢ k) (without k xs)
  unfolding without
  without-All k [] = tt
  without-All k (x ∷ xs) = elim (bytes_dec (key x) k) [
    | yes e ↦
        rw (if_pos (bytes_dec (key x) k) e (without k xs) (x ∷ without k xs)) (without-All k xs)
    | no n ↦
        rw (if_neg (bytes_dec (key x) k) n (without k xs) (x ∷ without k xs)) (n, without-All k xs)
  ]

  without-keeps : (k : Bytes) (xs : List Row) → All (λ x. key x ≢ k) xs → without k xs ≡ xs
  unfolding without
  without-keeps k [] h = refl
  without-keeps k (x ∷ xs) h =
      if_neg (bytes_dec (key x) k) (h.0) (without k xs) (x ∷ without k xs)
      ∙ ap (λ l. x ∷ l) (without-keeps k xs h.1)

  without-others :
      (k : Bytes) (xs ys : List Row) (r : Row)
      → key r ≡ k
      → All (λ x. key x ≢ k) (xs ++ ys)
      → without k (xs ++ (r ∷ ys)) ≡ xs ++ ys
  unfolding without
  without-others k [] ys r e h =
      if_pos (bytes_dec (key r) k) e (without k ys) (r ∷ without k ys) ∙ without-keeps k ys h
  without-others k (x ∷ xs) ys r e h =
      if_neg (bytes_dec (key x) k) (h.0) (without k (xs ++ (r ∷ ys)))
        (x ∷ without k (xs ++ (r ∷ ys)))
      ∙ ap (λ l. x ∷ l) (without-others k xs ys r e h.1)

  created_lem :
      (d d' : List Row) (r : Row) (b : Bool)
      → has_key (key r) d ≡ b
      → ◌≡◌ {A = List Row × Done} (if b then (d, err unique_failed) else (r ∷ d, ok tt)) (d', ok tt)
      → (xs : List Row) × (ys : List Row) × (d ≡ xs ++ ys)
        × (d' ≡ xs ++ (r ∷ ys))
        × All (λ x. key x ≢ key r) d
  created_lem d d' r true h e = absurd (ground arith)
  created_lem d d' r false h e = ([], d, refl, sym (ap (λ p. p.0) e), fresh_lem (key r) d h)

  not_created_lem :
      (d d' : List Row) (r : Row) (b : Bool) (f : DbError)
      → ◌≡◌ {A = List Row × Done} (if b then (d, err unique_failed) else (r ∷ d, ok tt)) (d', err f)
      → d' ≡ d
  not_created_lem d d' r true f e = sym (ap (λ p. p.0) e)
  not_created_lem d d' r false f e = absurd (ground arith)

  pub memory-IsTable : IsTable memory key (λ d. d)
  unfolding memory
  memory-IsTable = record {
    found = λ d rs e. ground arith;
    created = λ d d' r e. created_lem d d' r _ refl e;
    not_created = λ d d' r f e. not_created_lem d d' r _ f e;
    deleted = λ d d' k e. subst (λ l. All (λ x. key x ≢ k) l) (ap (λ p. p.0) e) (without-All k d);
    others_kept = λ d d' k xs ys r e f g h.
        sym (ap (λ p. p.0) e) ∙ ap (without k) f ∙ without-others k xs ys r g h;
  }
