-- ===== src/Redact/Process.antt =====
-- The loop of process of internal/operation/redact/writer.go: it stops, and what it lets through.
use autback.Prelude.{
  ℕ, zero, suc, ◌≤◌, ◌≡◌, refl, sym, subst, inl, inr, Bool, true, false, Option, none, [], ◌∷◌,
  arith, length,
}
use autback.Redact.{Bytes, Writer, turn, process_fuel, process}
use autback.Redact.Prefix.{longest, any_may_become, match_prefix_lem}
use autback.Redact.Stream.{
  Reliable, Extends, Settled, Turned, Extends-refl, Extends-trans, turn_lem,
}

module _ {S E : Type 0} (send : S → Bytes → ℕ × Option E × S) (d : Reliable send) where
  open d use {received}

  abbrev Done : Bool → ℕ → Writer S E → Writer S E → Type 0
  Done final fuel w w' =
      Extends send d final w w' × (length w.pending ≤ fuel → Settled send d final w')

  empty : (p : Bytes) → length p ≤ 0 → p ≡ []
  empty [] l = refl
  empty (x ∷ p) l = absurd (omega arith)

  abbrev first_turn : Bool → Writer S E → Writer S E × Bool
  first_turn final w =
      turn send final w (longest w.secrets w.pending, any_may_become w.secrets w.pending)

  abbrev after : ℕ → Bool → Writer S E × Bool → Writer S E
  after fuel final (w', true) = process_fuel send fuel final w'
  after fuel final (w', false) = w'

  process_fuel_step :
      (fuel : ℕ) (final : Bool) (w : Writer S E) (x : ℕ) (rest : Bytes)
      → w.error ≡ none
      → w.pending ≡ x ∷ rest
      → process_fuel send (suc fuel) final w ≡ after fuel final (first_turn final w)
  unfolding process_fuel
  process_fuel_step fuel final w x rest h p = ground (arith, match_prefix_lem w.secrets w.pending)

  process_fuel_stop :
      (fuel : ℕ) (final : Bool) (w : Writer S E)
      → w.pending ≡ []
      → process_fuel send (suc fuel) final w ≡ w
  unfolding process_fuel
  process_fuel_stop fuel final w p = ground arith

  after-Done :
      (fuel : ℕ) (final : Bool) (w : Writer S E) (t : Writer S E × Bool)
      → ((v : Writer S E) → v.error ≡ none → Done final fuel v (process_fuel send fuel final v))
      → w.error ≡ none
      → Turned send d final w t
      → Done final (suc fuel) w (after fuel final t)
  after-Done fuel final w (w', true) ih h (inl (goes, step, less)) =
      let (rest, settled) = ih w' step.same.error in
      (Extends-trans send d final w w' _ step rest, λ l. settled (omega arith))
  after-Done fuel final w (w', false) ih h (inl (goes, step, less)) = absurd (cc)
  after-Done fuel final w (w', true) ih h (inr (stops, same, quiet, waits)) = absurd (cc)
  after-Done fuel final w (w', false) ih h (inr (stops, same, quiet, waits)) =
      rw same (Extends-refl send d final w h, λ l. inr (quiet, waits))

  process_fuel_lem :
      (fuel : ℕ) (final : Bool) (w : Writer S E)
      → w.error ≡ none
      → Done final fuel w (process_fuel send fuel final w)
  unfolding process_fuel
  process_fuel_lem zero final w h = (Extends-refl send d final w h, λ l. inl (empty w.pending l))
  process_fuel_lem (suc fuel) final w h = go w.pending refl (process_fuel_lem fuel final)
    where
      go :
          (p : Bytes)
          → w.pending ≡ p
          → ((v : Writer S E) → v.error ≡ none → Done final fuel v (process_fuel send fuel final v))
          → Done final (suc fuel) w (process_fuel send (suc fuel) final w)
      go [] e ih =
          subst (Done final (suc fuel) w) (sym (process_fuel_stop fuel final w e))
            (Extends-refl send d final w h, λ l. inl e)
      go (x ∷ rest) e ih =
          subst (Done final (suc fuel) w) (sym (process_fuel_step fuel final w x rest h e))
            (after-Done fuel final w (first_turn final w) ih h (turn_lem send d final w x rest h e))

  pub process_lem :
      (final : Bool) (w : Writer S E)
      → w.error ≡ none
      → Extends send d final w (process send final w) × Settled send d final (process send final w)
  unfolding process
  process_lem final w h =
      let (e, s) = process_fuel_lem (length w.pending) final w h in (e, s (omega arith))
