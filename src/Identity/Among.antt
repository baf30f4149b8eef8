-- ===== src/Identity/Among.antt =====
-- Which values a list holds: lists that are selected and ordered, as the queries do it.
use autback.Prelude.{
  insert_by, order_by, ◌≡◌, refl, Bool, true, false, List, [], ◌∷◌, arith, if◌then◌else◌,
  select_where, ◌↔◌,
}

-- The value is one of the list.
pub data Among {A : Type 0} (value : A) : List A → Type 0 where
  here : {s : A} {ss : List A} → value ≡ s → Among value (s ∷ ss)
  there : {s : A} {ss : List A} → Among value ss → Among value (s ∷ ss)

module _ {A : Type 0} (before : A → A → Bool) (p : A) where
  swap_heads : (r s : A) (rs : List A) → Among p (r ∷ s ∷ rs) → Among p (s ∷ r ∷ rs)
  swap_heads r s rs (here e) = there (here e)
  swap_heads r s rs (there (here e)) = here e
  swap_heads r s rs (there (there h)) = there (there h)

  under_head :
      (s : A) (xs ys : List A) → (Among p xs → Among p ys) → Among p (s ∷ xs) → Among p (s ∷ ys)
  under_head s xs ys f (here e) = here e
  under_head s xs ys f (there h) = there (f h)

  insert_by-Among : (r : A) (rs : List A) → Among p (insert_by before r rs) ↔ Among p (r ∷ rs)
  unfolding insert_by
  insert_by-Among r [] = (λ h. h, λ h. h)
  insert_by-Among r (s ∷ ss) = split (before s r) (insert_by-Among r ss)
    where
      split :
          (b : Bool)
          → Among p (insert_by before r ss) ↔ Among p (r ∷ ss)
          → Among p (if b then s ∷ insert_by before r ss else r ∷ s ∷ ss) ↔ Among p (r ∷ s ∷ ss)
      split true ih = (
        λ h. swap_heads s r ss (under_head s _ _ ih.0 h),
        λ h. under_head s _ _ ih.1 (swap_heads r s ss h),
      )
      split false ih = (λ h. h, λ h. h)

  pub order_by-Among : (rs : List A) → Among p (order_by before rs) ↔ Among p rs
  unfolding order_by
  order_by-Among [] = (λ h. h, λ h. h)
  order_by-Among (r ∷ rs) =
      let step = insert_by-Among r (order_by before rs) in
      let ih = order_by-Among rs in
      (λ h. under_head r _ _ ih.0 (step.0 h), λ h. step.1 (under_head r _ _ ih.1 h))

module _ {A : Type 0} (q : A → Bool) (p : A) where
  pub select_where-Among :
      (rows : List A) → Among p (select_where q rows) ↔ (Among p rows × (q p ≡ true))
  unfolding select_where
  select_where-Among [] = (λ h. elim h [ ], λ h. h.0)
  select_where-Among (r ∷ rs) = split (q r) refl (select_where-Among rs)
    where
      split :
          (b : Bool)
          → q r ≡ b
          → Among p (select_where q rs) ↔ (Among p rs × (q p ≡ true))
          → Among p (if b then r ∷ select_where q rs else select_where q rs)
            ↔ (Among p (r ∷ rs) × (q p ≡ true))
      split true e ih = (forward, backward)
        where
          forward : Among p (r ∷ select_where q rs) → Among p (r ∷ rs) × (q p ≡ true)
          forward (here d) = (here d, rw d e)
          forward (there h) = (there (ih.0 h).0, (ih.0 h).1)

          backward : Among p (r ∷ rs) × (q p ≡ true) → Among p (r ∷ select_where q rs)
          backward (here d, k) = here d
          backward (there h, k) = there (ih.1 (h, k))
      split false e ih = (λ h. (there (ih.0 h).0, (ih.0 h).1), backward)
        where
          backward : Among p (r ∷ rs) × (q p ≡ true) → Among p (select_where q rs)
          backward (here d, k) = absurd (ground arith)
          backward (there h, k) = ih.1 (h, k)
