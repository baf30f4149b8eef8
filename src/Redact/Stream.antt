-- ===== src/Redact/Stream.antt =====
-- The whole stream that a redactor of internal/operation/redact/writer.go lets through.
use mathlib.Core.List.{append-nil, append_assoc}
use autback.Prelude.{
  ℕ, zero, suc, ◌<◌, ◌≡◌, ◌≢◌, refl, sym, subst, ap, ◌∙◌, ◌⊎◌, inl, inr, Bool, true, false, not,
  ◌||◌, Option, none, List, [], ◌∷◌, ◌++◌, arith, length, take, drop, ltb, Bool-cases,
}
use autback.Redact.{Bytes, Writer, emit, turn}
use autback.Redact.Prefix.{longest, longest-append, any_may_become}
use autback.Redact.Spec.{Redacts, hide, keep, longest-le, drop-append}

-- What a redactor relies on: the destination takes all the bytes of a write, with no error.
-- `received` is what it has got so far.
pub record Reliable {S E : Type 0} (send : S → Bytes → ℕ × Option E × S) : Type 0 where
  pub received : S → Bytes
  pub takes :
      (s : S) (xs : Bytes)
      → ((send s xs).0 ≡ length xs)
        × ((send s xs).1 ≡ none)
        × (received (send s xs).2 ≡ received s ++ xs)

module _ {S E : Type 0} (send : S → Bytes → ℕ × Option E × S) (d : Reliable send) where
  open d use {received, takes}

  abbrev pub out : Writer S E → Bytes
  out w = received w.destination

  -- w' has the settings of w and no error.
  pub record Same (w w' : Writer S E) : Type 0 where
    pub secrets : w'.secrets ≡ w.secrets
    pub replacement : w'.replacement ≡ w.replacement
    pub closed : w'.closed ≡ w.closed
    pub error : w'.error ≡ none

  pub emit_lem :
      (w : Writer S E) (xs : Bytes)
      → w.error ≡ none
      → Same w (emit send w xs)
        × ((emit send w xs).pending ≡ w.pending)
        × (out (emit send w xs) ≡ out w ++ xs)
  unfolding emit
  emit_lem w [] h = (ground arith, refl, sym (append-nil (out w)))
  emit_lem w (x ∷ xs) h = ground (arith, takes w.destination (x ∷ xs))

  -- What happens to the stream between w and w': the bytes e go out, and whatever is a redaction of
  -- the bytes that are still pending in w', with more to follow, is one behind e of those in w.
  -- With the flag set nothing follows.
  pub record Extends (final : Bool) (w w' : Writer S E) : Type 0 where
    pub same : Same w w'
    pub e : Bytes
    pub out_eq : out w' ≡ out w ++ e
    pub redacts :
        (f ys : Bytes)
        → (final ≡ true → f ≡ [])
        → Redacts w.secrets w.replacement (w'.pending ++ f) ys
        → Redacts w.secrets w.replacement (w.pending ++ f) (e ++ ys)

  pub Extends-refl : (final : Bool) (w : Writer S E) → w.error ≡ none → Extends final w w
  Extends-refl final w h = record {
    same = ground arith;
    e = [];
    out_eq = sym (append-nil (out w));
    redacts = λ f ys _ r. r;
  }

  pub Extends-trans :
      (final : Bool) (u v w : Writer S E)
      → Extends final u v
      → Extends final v w
      → Extends final u w
  Extends-trans final u v w h k = record {
    same = ground (arith, h.same, k.same);
    e = h.e ++ k.e;
    out_eq = ground (arith, h.out_eq, k.out_eq, append_assoc (out u) h.e k.e);
    redacts = λ f ys n r.
        subst (Redacts u.secrets u.replacement (u.pending ++ f)) (sym (append_assoc h.e k.e ys))
          (h.redacts f (k.e ++ ys) n (moved f (k.e ++ ys) (k.redacts f ys n (back f ys r))));
  }
    where
      moved :
          (f ys : Bytes)
          → Redacts v.secrets v.replacement (v.pending ++ f) ys
          → Redacts u.secrets u.replacement (v.pending ++ f) ys
      moved f ys r = rw (← h.same.secrets, ← h.same.replacement) r

      back :
          (f ys : Bytes)
          → Redacts u.secrets u.replacement (w.pending ++ f) ys
          → Redacts v.secrets v.replacement (w.pending ++ f) ys
      back f ys r = rw (h.same.secrets, h.same.replacement) r

  -- The longest secret of the pending bytes is that of the whole text, where a turn acts on it.
  longest_known :
      (final : Bool) (ss : List Bytes) (p f : Bytes)
      → (final ≡ true → f ≡ [])
      → (final || not (any_may_become ss p)) ≡ true
      → longest ss (p ++ f) ≡ longest ss p
  longest_known true ss p f n k =
      ap (longest ss) (subst (λ g. p ++ g ≡ p) (sym (n refl)) (append-nil p))
  longest_known false ss p f n k = longest-append ss p f (ground arith)

  -- A turn that hides a secret.
  turn_hides :
      (final : Bool) (w : Writer S E)
      → w.error ≡ none
      → 0 < longest w.secrets w.pending
      → (final || not (any_may_become w.secrets w.pending)) ≡ true
      → let v = emit send w w.replacement in
        Extends final w (record v { pending = drop (longest w.secrets w.pending) v.pending })
  turn_hides final w h pos k =
      let (same, kept, sent) = emit_lem w w.replacement h in
      record {
        same = ground (arith, same);
        e = w.replacement;
        out_eq = sent;
        redacts = λ f ys n r.
            let known = longest_known final w.secrets w.pending f n k in
            hide (ground (arith, known)) (moved f ys known kept r) refl;
      }
    where
      moved :
          (f ys : Bytes)
          → longest w.secrets (w.pending ++ f) ≡ longest w.secrets w.pending
          → (emit send w w.replacement).pending ≡ w.pending
          → Redacts w.secrets w.replacement
              (drop (longest w.secrets w.pending) (emit send w w.replacement).pending ++ f)
              ys
          → Redacts w.secrets w.replacement
              (drop (longest w.secrets (w.pending ++ f)) (w.pending ++ f))
              ys
      moved f ys known kept r =
          rw (known, drop-append _ w.pending f (longest-le w.secrets w.pending)) (rw kept at r)

  -- A turn that keeps a byte.
  turn_keeps :
      (final : Bool) (w : Writer S E) (x : ℕ) (rest : Bytes)
      → w.error ≡ none
      → w.pending ≡ x ∷ rest
      → longest w.secrets w.pending ≡ 0
      → (final || not (any_may_become w.secrets w.pending)) ≡ true
      → let v = emit send w (take 1 w.pending) in
        Extends final w (record v { pending = drop 1 v.pending })
  turn_keeps final w x rest h p none_found k =
      let (same, kept, sent) = emit_lem w (take 1 w.pending) h in
      record {
        same = ground (arith, same);
        e = x ∷ [];
        out_eq = ground (arith, sent);
        redacts = λ f ys n r.
            subst (λ t. Redacts w.secrets w.replacement (t ++ f) (x ∷ ys)) (sym p)
              (keep (ground (arith, longest_known final w.secrets w.pending f n k))
                (moved f ys kept r));
      }
    where
      moved :
          (f ys : Bytes)
          → (emit send w (take 1 w.pending)).pending ≡ w.pending
          → Redacts w.secrets w.replacement
              (drop 1 (emit send w (take 1 w.pending)).pending ++ f)
              ys
          → Redacts w.secrets w.replacement (rest ++ f) ys
      moved f ys kept r =
          subst (λ t. Redacts w.secrets w.replacement (drop 1 t ++ f) ys) (kept ∙ p) r

  -- Nothing is pending, or what is pending may still become a secret and more may come.
  abbrev pub Settled : Bool → Writer S E → Type 0
  Settled final w =
      (w.pending ≡ []) ⊎ ((final ≡ false) × (any_may_become w.secrets w.pending ≡ true))

  abbrev pub Turned : Bool → Writer S E → Writer S E × Bool → Type 0
  Turned final w (w', more) =
      ((more ≡ true) × Extends final w w' × (length w'.pending < length w.pending))
      ⊎ ((more ≡ false) × (w' ≡ w) × (final ≡ false) × (any_may_become w.secrets w.pending ≡ true))

  length-drop : (n : ℕ) (p : Bytes) → 0 < n → p ≢ [] → length (drop n p) < length p
  length-drop zero p h k = absurd (omega arith)
  length-drop (suc n) [] h k = absurd (k refl)
  length-drop (suc n) (x ∷ p) h k = shrink n p
    where
      shrink : (n : ℕ) (p : Bytes) → length (drop n p) < suc (length p)
      shrink zero p = omega arith
      shrink (suc n) [] = omega arith
      shrink (suc n) (y ∷ p) = omega (arith, shrink n p)

  pub turn_lem :
      (final : Bool) (w : Writer S E) (x : ℕ) (rest : Bytes)
      → w.error ≡ none
      → w.pending ≡ x ∷ rest
      → Turned final w
          (turn send final w (longest w.secrets w.pending, any_may_become w.secrets w.pending))
  unfolding turn
  turn_lem final w x rest h p =
      elim (Bool-cases (final || not (any_may_become w.secrets w.pending))) [
        | inr waits ↦ ground arith
        | inl acts ↦ elim (Bool-cases (ltb 0 (longest w.secrets w.pending))) [
          | inl hit ↦
              let (same, kept, sent) = emit_lem w w.replacement h in
              ground (
                arith,
                turn_hides final w h (ground arith) acts,
                length-drop (longest w.secrets w.pending) w.pending,
                kept,
              )
          | inr miss ↦
              let (same, kept, sent) = emit_lem w (take 1 w.pending) h in
              ground (
                arith,
                turn_keeps final w x rest h p (ground arith) acts,
                length-drop 1 w.pending,
                kept,
              )
        ]
      ]
