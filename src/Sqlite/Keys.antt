-- ===== src/Sqlite/Keys.antt =====
-- The row of an operation in the queue of internal/control/sqlite/store.go: UNIQUE(kind,
-- operation_id) makes it the only one that a WHERE clause on the key can change.
use autback.Prelude.{
  ◌≡◌, refl, String, Bool, true, false, ◌&&◌, some, List, [], ◌∷◌, arith, All, All-map, count_where,
  find_where, eq_iff, Bool-cases, inl, inr,
}
use autback.Control.{OperationKind}
use autback.Sqlite.Tables.{QueueRow, has_key}
use autback.Sqlite.Evolution.{Unique}

count_where-zero :
    (p : QueueRow → Bool) (rows : List QueueRow)
    → count_where p rows ≡ 0
    → All (λ r. p r ≡ false) rows
unfolding count_where
count_where-zero p [] h = tt
count_where-zero p (x ∷ rs) h = (ground arith, count_where-zero p rs (ground arith))

module _ (kind : OperationKind) (id : String) where
  has_key_join :
      (x s : QueueRow)
      → has_key kind id x ≡ true
      → has_key kind id s ≡ true
      → has_key x.kind x.operation_id s ≡ true
  has_key_join x s h k = ground (
    arith,
    eq_iff x.operation_id id,
    eq_iff s.operation_id id,
    eq_iff s.operation_id x.operation_id,
  )

  none_else :
      (x : QueueRow) (rows : List QueueRow)
      → has_key kind id x ≡ true
      → All (λ s. has_key x.kind x.operation_id s ≡ false) rows
      → count_where (has_key kind id) rows ≡ 0
  unfolding count_where
  none_else x [] h a = refl
  none_else x (s ∷ rs) h a = ground (arith, none_else x rs h a.1, has_key_join x s h, a.0)

  -- One row has the key of a row that is found by it.
  pub count-key :
      (rows : List QueueRow) (r : QueueRow)
      → Unique rows
      → find_where (has_key kind id) rows ≡ some r
      → count_where (has_key kind id) rows ≡ 1
  unfolding count_where find_where
  count-key [] r u h = absurd (cc)
  count-key (x ∷ rs) r u h = elim (Bool-cases (has_key kind id x)) [
    | inl hit ↦
        ground (arith, none_else x rs hit (count_where-zero (has_key x.kind x.operation_id) rs u.0))
    | inr miss ↦ ground (arith, count-key rs r u.1)
  ]

  -- Every row with the key is the one that is found.
  pub only-key :
      (rows : List QueueRow) (r : QueueRow)
      → Unique rows
      → find_where (has_key kind id) rows ≡ some r
      → All (λ s. has_key kind id s ≡ true → s ≡ r) rows
  unfolding find_where
  only-key [] r u h = tt
  only-key (x ∷ rs) r u h = elim (Bool-cases (has_key kind id x)) [
    | inl hit ↦ (
      (λ k. ground arith),
      All-map _ _ rs (λ s f k. absurd (ground (arith, has_key_join x s hit k)))
          (count_where-zero (has_key x.kind x.operation_id) rs u.0),
    )
    | inr miss ↦ ((λ k. absurd (cc)), only-key rs r u.1 (ground arith))
  ]

  -- A further test on the row selects it or nothing.
  pub count-key-test :
      (q : QueueRow → Bool) (rows : List QueueRow) (r : QueueRow)
      → All (λ s. has_key kind id s ≡ true → s ≡ r) rows
      → q r ≡ true
      → count_where (λ s. has_key kind id s && q s) rows ≡ count_where (has_key kind id) rows
  unfolding count_where
  count-key-test q [] r a t = refl
  count-key-test q (x ∷ rs) r a t = elim (Bool-cases (has_key kind id x)) [
    | inl hit ↦ ground (arith, a.0 hit, count-key-test q rs r a.1 t)
    | inr miss ↦ ground (arith, count-key-test q rs r a.1 t)
  ]

  pub count-key-none :
      (q : QueueRow → Bool) (rows : List QueueRow) (r : QueueRow)
      → All (λ s. has_key kind id s ≡ true → s ≡ r) rows
      → q r ≡ false
      → count_where (λ s. has_key kind id s && q s) rows ≡ 0
  unfolding count_where
  count-key-none q [] r a t = refl
  count-key-none q (x ∷ rs) r a t = elim (Bool-cases (has_key kind id x)) [
    | inl hit ↦ ground (arith, a.0 hit, count-key-none q rs r a.1 t)
    | inr miss ↦ ground (arith, count-key-none q rs r a.1 t)
  ]
