-- ===== src/Sqlite/Oldest.antt =====
-- The row that `ORDER BY sequence LIMIT 1` selects (internal/control/sqlite/store.go).
use autback.Prelude.{
  ◌≤◌, ◌≡◌, refl, subst, Bool, true, false, ◌&&◌, none, some, ◌⊎◌, inl, inr, List, [], ◌∷◌, arith,
  All, All-map, count_where, find_where, eq_iff, Option-cases,
}
use autback.Sqlite.Tables.{QueueRow, has_key}
use autback.Sqlite.Evolution.{Unique}
use autback.Sqlite.Queue.{oldest}

-- It is the head, or that of the tail.
oldest-cases :
    (p : QueueRow → Bool) (x r : QueueRow) (rs : List QueueRow)
    → oldest p (x ∷ rs) ≡ some r
    → ((x ≡ r) × (p x ≡ true)) ⊎ (oldest p rs ≡ some r)
unfolding oldest
oldest-cases p x r rs h = ground arith

pub oldest-test :
    (p : QueueRow → Bool) (rows : List QueueRow) (r : QueueRow)
    → oldest p rows ≡ some r
    → p r ≡ true
unfolding oldest
oldest-test p [] r h = absurd (cc)
oldest-test p (x ∷ rs) r h = elim (oldest-cases p x r rs h) [
  | inl (e, t) ↦ rw (← e) t
  | inr e ↦ oldest-test p rs r e
]

-- What holds of every row holds of the selected one.
pub oldest-All {κ} :
    (P : QueueRow → Type κ) (p : QueueRow → Bool) (rows : List QueueRow) (r : QueueRow)
    → All P rows
    → oldest p rows ≡ some r
    → P r
unfolding oldest
oldest-All P p [] r a h = absurd (cc)
oldest-All P p (x ∷ rs) r a h = elim (oldest-cases p x r rs h) [
  | inl (e, t) ↦ rw (← e) a.0
  | inr e ↦ oldest-All P p rs r a.1 e
]

-- No selected row was accepted earlier.
pub oldest-least :
    (p : QueueRow → Bool) (rows : List QueueRow) (r : QueueRow)
    → oldest p rows ≡ some r
    → All (λ s. p s ≡ true → r.sequence ≤ s.sequence) rows
unfolding oldest
oldest-least p [] r h = tt
oldest-least p (x ∷ rs) r h = elim (Option-cases (oldest p rs)) [
  | inl e ↦ (ground arith, All-map _ _ rs (λ s f t. absurd (ground arith)) (no_tail rs e))
  | inr (s, e) ↦
      (ground arith, All-map _ _ rs (λ u f t. ground (arith, f t)) (oldest-least p rs s e))
]
  where
    no_tail : (ss : List QueueRow) → oldest p ss ≡ none → All (λ s. p s ≡ false) ss
    no_tail [] e = tt
    no_tail (y ∷ ys) e = (ground arith, no_tail ys (ground arith))

pub oldest-none :
    (p : QueueRow → Bool) (rows : List QueueRow) → oldest p rows ≡ none → count_where p rows ≡ 0
unfolding oldest count_where
oldest-none p [] h = refl
oldest-none p (x ∷ rs) h = ground (arith, oldest-none p rs)

count_where-zero {ℓ} :
    {A : Type ℓ} (p : A → Bool) (rows : List A)
    → count_where p rows ≡ 0
    → All (λ r. p r ≡ false) rows
unfolding count_where
count_where-zero p [] h = tt
count_where-zero p (x ∷ rs) h = (ground arith, count_where-zero p rs (ground arith))

has_key_sym :
    (r s : QueueRow)
    → has_key r.kind r.operation_id s ≡ true
    → has_key s.kind s.operation_id r ≡ true
has_key_sym r s h =
    ground (arith, eq_iff s.operation_id r.operation_id, eq_iff r.operation_id s.operation_id)

-- With unique keys the key of the selected row is that of no other.
pub oldest-key :
    (p : QueueRow → Bool) (rows : List QueueRow) (r : QueueRow)
    → Unique rows
    → oldest p rows ≡ some r
    → All (λ s. has_key r.kind r.operation_id s ≡ true → s ≡ r) rows
unfolding oldest
oldest-key p [] r u h = tt
oldest-key p (x ∷ rs) r u h = elim (oldest-cases p x r rs h) [
  | inl (e, t) ↦ ((λ _. e), rest e)
  | inr e ↦ ((λ k. head e k), oldest-key p rs r u.1 e)
]
  where
    absent : All (λ s. has_key x.kind x.operation_id s ≡ false) rs
    absent = count_where-zero (has_key x.kind x.operation_id) rs u.0

    rest : x ≡ r → All (λ s. has_key r.kind r.operation_id s ≡ true → s ≡ r) rs
    rest e = rw (← e) (All-map _ _ rs (λ s f t. absurd (ground arith)) absent)

    head : oldest p rs ≡ some r → has_key r.kind r.operation_id x ≡ true → x ≡ r
    head e k = absurd (
        ground (
          arith,
          oldest-All (λ s. has_key x.kind x.operation_id s ≡ false) p rs r absent e,
          has_key_sym r x k,
        ))

pub has_key_refl : (r : QueueRow) → has_key r.kind r.operation_id r ≡ true
has_key_refl r = ground (arith, eq_iff r.operation_id r.operation_id)

-- An update of the selected row by its key changes one row.
pub oldest-count :
    (p : QueueRow → Bool) (rows : List QueueRow) (r : QueueRow)
    → Unique rows
    → oldest p rows ≡ some r
    → count_where (λ s. has_key r.kind r.operation_id s && p s) rows ≡ 1
unfolding oldest count_where
oldest-count p [] r u h = absurd (cc)
oldest-count p (x ∷ rs) r u h = elim (oldest-cases p x r rs h) [
  | inl (e, t) ↦
      subst (λ y. count_where (λ s. has_key y.kind y.operation_id s && p s) (x ∷ rs) ≡ 1) e
        (ground (arith, has_key_refl x, none_else rs absent))
  | inr e ↦ ground (
    arith,
    oldest-count p rs r u.1 e,
    oldest-All (λ s. has_key x.kind x.operation_id s ≡ false) p rs r absent e,
    has_key_sym r x,
  )
]
  where
    absent : All (λ s. has_key x.kind x.operation_id s ≡ false) rs
    absent = count_where-zero (has_key x.kind x.operation_id) rs u.0

    none_else :
        (ss : List QueueRow)
        → All (λ s. has_key x.kind x.operation_id s ≡ false) ss
        → count_where (λ s. has_key x.kind x.operation_id s && p s) ss ≡ 0
    none_else [] a = refl
    none_else (y ∷ ys) a = ground (arith, none_else ys a.1, a.0)

-- The selected row is the one that its key finds.
pub find-oldest :
    (p : QueueRow → Bool) (rows : List QueueRow) (r : QueueRow)
    → Unique rows
    → oldest p rows ≡ some r
    → find_where (has_key r.kind r.operation_id) rows ≡ some r
unfolding oldest find_where
find-oldest p [] r u h = absurd (cc)
find-oldest p (x ∷ rs) r u h = elim (oldest-cases p x r rs h) [
  | inl (e, t) ↦ ground (arith, has_key_refl r)
  | inr e ↦ ground (
    arith,
    find-oldest p rs r u.1 e,
    has_key_sym r x,
    oldest-All (λ s. has_key x.kind x.operation_id s ≡ false) p rs r
        (count_where-zero (has_key x.kind x.operation_id) rs u.0) e,
  )
]
