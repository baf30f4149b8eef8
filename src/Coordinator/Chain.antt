-- ===== src/Coordinator/Chain.antt =====
-- internal/operation/cleanup/chain.go: the steps that prepare an operation, and those that clean it up.
use autback.Prelude.{◌≡◌, refl, Option, none, some, List, [], ◌∷◌, ◌++◌, ap}
use autback.Control.{Operation}

-- A Preparer or a Cleaner; nil is no step.
abbrev pub Step : Type 0 → Type 0 → Type 0
Step W E = Option (Operation → W → Option E × W)

pub record Lifecycle (W E : Type 0) : Type 0 where
  pub preparers : List (Step W E)
  pub cleaners : List (Step W E)

abbrev pub joined : {E : Type 0} → Option E → List E → List E
joined none es = es
joined (some e) es = e ∷ es

module _ {W E : Type 0} where
  -- The steps that are left run unless there is an error.
  abbrev pub unless_failed : (W → Option E × W) → Option E × W → Option E × W
  unless_failed rest (some e, w) = (some e, w)
  unless_failed rest (none, w) = rest w

  unfoldable pub prepare_all : List (Step W E) → Operation → W → Option E × W
  prepare_all [] op w = (none, w)
  prepare_all (none ∷ ps) op w = prepare_all ps op w
  prepare_all (some p ∷ ps) op w = unless_failed (λ w'. prepare_all ps op w') (p op w)

  -- The errors that errors.Join joins.
  unfoldable pub cleanup_all : List (Step W E) → Operation → W → List E × W
  cleanup_all [] op w = ([], w)
  cleanup_all (none ∷ cs) op w = cleanup_all cs op w
  cleanup_all (some c ∷ cs) op w =
      let (e, w') = c op w in let (es, w'') = cleanup_all cs op w' in (joined e es, w'')

  -- Lifecycle.Prepare
  unfoldable pub prepare : Lifecycle W E → Operation → W → Option E × W
  prepare l op w = prepare_all l.preparers op w

  -- Lifecycle.Cleanup
  unfoldable pub cleanup : Lifecycle W E → Operation → W → List E × W
  cleanup l op w = cleanup_all l.cleaners op w

  joins :
      {w' : W} {x : List E × W} (es fs : List E) (e : Option E)
      → x ≡ (es ++ fs, w')
      → ◌≡◌ {A = List E × W} (joined e x.0, x.1) (joined e es ++ fs, w')
  joins es fs none h = h
  joins es fs (some e) h = ap (λ y. (e ∷ y.0, y.1)) h

  cleanup_all-append :
      (cs ds : List (Step W E)) (op : Operation) (w : W)
      → let (es, w') = cleanup_all cs op w in
        cleanup_all (cs ++ ds) op w ≡ (es ++ (cleanup_all ds op w').0, (cleanup_all ds op w').1)
  unfolding cleanup_all
  cleanup_all-append [] ds op w = refl
  cleanup_all-append (none ∷ cs) ds op w = cleanup_all-append cs ds op w
  cleanup_all-append (some c ∷ cs) ds op w =
      joins _ _ (c op w).0 (cleanup_all-append cs ds op (c op w).1)

  -- Cleanup runs every cleaner: those after a part of the chain run in the world that the part leaves,
  -- whatever errors it returned, and the errors are joined in their order.
  pub cleanup_runs_all :
      (ps cs ds : List (Step W E)) (op : Operation) (w : W)
      → let (es, w') = cleanup (record { preparers = ps; cleaners = cs }) op w in
        let (fs, w'') = cleanup (record { preparers = ps; cleaners = ds }) op w' in
        cleanup (record { preparers = ps; cleaners = cs ++ ds }) op w ≡ (es ++ fs, w'')
  unfolding cleanup
  cleanup_runs_all ps cs ds op w = cleanup_all-append cs ds op w

  unless_lem :
      (f g h : W → Option E × W)
      → ((w : W) → f w ≡ unless_failed h (g w))
      → (x : Option E × W) → unless_failed f x ≡ unless_failed h (unless_failed g x)
  unless_lem f g h k (some e, w) = refl
  unless_lem f g h k (none, w) = k w

  prepare_all-append :
      (ps qs : List (Step W E)) (op : Operation) (w : W)
      → prepare_all (ps ++ qs) op w
        ≡ unless_failed (λ w'. prepare_all qs op w') (prepare_all ps op w)
  unfolding prepare_all
  prepare_all-append [] qs op w = refl
  prepare_all-append (none ∷ ps) qs op w = prepare_all-append ps qs op w
  prepare_all-append (some p ∷ ps) qs op w =
      unless_lem (λ w'. prepare_all (ps ++ qs) op w') (λ w'. prepare_all ps op w')
        (λ w'. prepare_all qs op w') (λ w'. prepare_all-append ps qs op w') (p op w)

  -- Prepare stops at the first error: when a part of the chain fails, the preparers after it do not
  -- run, and the error is returned.
  pub prepare_stops :
      (ps qs cs : List (Step W E)) (op : Operation) (w w' : W) (e : E)
      → prepare (record { preparers = ps; cleaners = cs }) op w ≡ (some e, w')
      → prepare (record { preparers = ps ++ qs; cleaners = cs }) op w ≡ (some e, w')
  unfolding prepare
  prepare_stops ps qs cs op w w' e h = rw (prepare_all-append ps qs op w, h) refl
