-- ===== src/Resources/Sets.antt =====
-- What subtract, normalize and difference of internal/operation/cleanup/resources.go keep.
use autback.Prelude.{
  ◌≡◌, refl, ◌≢◌, String, Bool, true, false, ◌&&◌, not, List, [], ◌∷◌, str_eq, All, Bool-cases, inl,
  inr, select_where, insert_by, order_by, arith,
}
use autback.Resources.{has_text, is_owned, subtract, unique_from, text_lt, unique_sorted}

module _ {A : Type 0} (before : A → A → Bool) where
  insert_by-All :
      (P : A → Type 0) (r : A) (rs : List A) → P r → All P rs → All P (insert_by before r rs)
  unfolding insert_by
  insert_by-All P r [] h v = (h, tt)
  insert_by-All P r (s ∷ ss) h (k, v) = elim (Bool-cases (before s r)) [
    | inl e ↦ rw e (k, insert_by-All P r ss h v)
    | inr e ↦ rw e (h, (k, v))
  ]

  order_by-All : (P : A → Type 0) (rs : List A) → All P rs → All P (order_by before rs)
  unfolding order_by
  order_by-All P [] v = tt
  order_by-All P (r ∷ rs) (h, v) = insert_by-All P r (order_by before rs) h (order_by-All P rs v)

  insert_by_nonempty : (r : A) (rs : List A) → insert_by before r rs ≢ []
  unfolding insert_by
  insert_by_nonempty r [] = λ e. cc
  insert_by_nonempty r (s ∷ ss) = elim (Bool-cases (before s r)) [
    | inl k ↦ rw k (λ e. cc)
    | inr k ↦ rw k (λ e. cc)
  ]

  order_by_empty : (rs : List A) → order_by before rs ≡ [] → rs ≡ []
  unfolding order_by
  order_by_empty [] e = refl
  order_by_empty (r ∷ rs) e = absurd (insert_by_nonempty r (order_by before rs) e)

unique_from-All :
    (P : String → Type 0) (seen vs : List String) → All P vs → All P (unique_from seen vs)
unfolding unique_from
unique_from-All P seen [] v = tt
unique_from-All P seen (x ∷ xs) (h, v) =
    elim (Bool-cases (not (str_eq x "") && not (has_text x seen))) [
      | inl e ↦ rw e (h, unique_from-All P (x ∷ seen) xs v)
      | inr e ↦ rw e (unique_from-All P seen xs v)
    ]

select_where_tests :
    {A : Type 0} (q : A → Bool) (xs : List A) → All (λ x. q x ≡ true) (select_where q xs)
unfolding select_where
select_where_tests q [] = tt
select_where_tests q (x ∷ xs) = elim (Bool-cases (q x)) [
  | inl e ↦ rw e (e, select_where_tests q xs)
  | inr e ↦ rw e (select_where_tests q xs)
]

-- What a difference lists is owned.
pub owned_listed :
    (current baseline : List String)
    → All (λ id. is_owned baseline id ≡ true) (unique_sorted (subtract current baseline))
unfolding unique_sorted
owned_listed current baseline =
    order_by-All text_lt (λ id. is_owned baseline id ≡ true) _
      (unique_from-All (λ id. is_owned baseline id ≡ true) [] _
        (select_where_tests (is_owned baseline) current))

fresh_head : (x : String) (xs : List String) → str_eq x "" ≡ false → unique_from [] (x ∷ xs) ≢ []
unfolding unique_from has_text
fresh_head x xs h = rw h (λ e. cc)

unique_none :
    (b xs : List String)
    → unique_from [] (select_where (is_owned b) xs) ≡ []
    → All (λ id. is_owned b id ≡ false) xs
unfolding select_where
unique_none b [] = λ e. tt
unique_none b (x ∷ xs) = elim (Bool-cases (is_owned b x)) [
  | inl k ↦ rw k (λ e. absurd (fresh_head x (select_where (is_owned b) xs) (ground arith) e))
  | inr k ↦ rw k (λ e. (refl, unique_none b xs e))
]

-- Where a difference lists nothing, nothing is owned.
pub none_owned :
    (current baseline : List String)
    → unique_sorted (subtract current baseline) ≡ []
    → All (λ id. is_owned baseline id ≡ false) current
unfolding unique_sorted
none_owned current baseline e = unique_none baseline current (order_by_empty text_lt _ e)
