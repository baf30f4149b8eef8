-- ===== src/Redact/Whole.antt =====
-- Writes and Close of internal/operation/redact/writer.go, seen from the whole stream.
use mathlib.Core.List.{append-nil, append_assoc}
use autback.Prelude.{
  ℕ, ◌≡◌, ◌≢◌, refl, sym, subst, ap, ◌∙◌, ◌⊎◌, inl, inr, true, false, Option, none, List, [], ◌∷◌,
  ◌++◌, arith,
}
use autback.Redact.{Bytes, Writer, process, write, write_all, close}
use autback.Redact.Prefix.{any_may_become}
use autback.Redact.Spec.{Redacts, done, keep, Redacts-unique}
use autback.Redact.Stream.{Reliable, out}
use autback.Redact.Process.{process_lem}

abbrev pub joined : List Bytes → Bytes
joined [] = []
joined (c ∷ cs) = c ++ joined cs

-- A writer as NewWriter returns it, with its settings.
pub record IsFresh {S E : Type 0} (w : Writer S E) : Type 0 where
  pub open_ : w.closed ≡ false
  pub no_error : w.error ≡ none
  pub no_pending : w.pending ≡ []

-- With no secrets a text is its own redaction.
Redacts-keep_all : (rep c f ys : Bytes) → Redacts [] rep f ys → Redacts [] rep (c ++ f) (c ++ ys)
Redacts-keep_all rep [] f ys r = r
Redacts-keep_all rep (x ∷ c) f ys r = keep refl (Redacts-keep_all rep c f ys r)

along :
    (ss ss' : List Bytes) (rep rep' text text' ys ys' : Bytes)
    → ss ≡ ss'
    → rep ≡ rep'
    → text ≡ text'
    → ys ≡ ys'
    → Redacts ss rep text ys
    → Redacts ss' rep' text' ys'
along ss ss' rep rep' text text' ys ys' a b c e r = rw (← a, ← b, ← c, ← e) r

module _ {S E : Type 0} (send : S → Bytes → ℕ × Option E × S) (d : Reliable send) where
  open d use {received, takes}

  module _ (ss : List Bytes) (rep : Bytes) where
    -- The writer has got the bytes h, and nothing went wrong.
    record Holds (h : Bytes) (w : Writer S E) : Type 0 where
      secrets : w.secrets ≡ ss
      replacement : w.replacement ≡ rep
      open_ : w.closed ≡ false
      error : w.error ≡ none
      unbuffered : ss ≡ [] → w.pending ≡ []
      redacts :
          (f ys : Bytes)
          → Redacts ss rep (w.pending ++ f) ys
          → Redacts ss rep (h ++ f) (out send d w ++ ys)

    buffered-Holds :
        (h c : Bytes) (w : Writer S E)
        → ss ≢ []
        → Holds h w
        → Holds (h ++ c) (process send false (record w { pending = w.pending ++ c }))
    buffered-Holds h c w n v =
        let w' = record w { pending = w.pending ++ c } in
        let (e, s) = process_lem send d false w' v.error in
        record {
          secrets = e.same.secrets ∙ v.secrets;
          replacement = e.same.replacement ∙ v.replacement;
          open_ = e.same.closed ∙ v.open_;
          error = e.same.error;
          unbuffered = λ q. absurd (n q);
          redacts = λ f ys r.
              along ss ss rep rep _ _ _ _ refl refl (sym (append_assoc h c f))
                (sym (append_assoc (out send d w) e.e ys) ∙ ap (λ o. o ++ ys) (sym e.out_eq))
                (v.redacts (c ++ f) (e.e ++ ys) (
                  along _ _ _ _ _ _ _ _ v.secrets v.replacement (append_assoc w.pending c f) refl (
                    e.redacts f ys (λ q. absurd (cc))
                      (along _ _ _ _ _ _ _ _ (sym v.secrets) (sym v.replacement) refl refl r))));
        }

    passed_Holds :
        (h c : Bytes) (w : Writer S E)
        → ss ≡ []
        → Holds h w
        → Holds (h ++ c) (record w { destination = (send w.destination c).2 })
    passed_Holds h c w n v = record {
      secrets = v.secrets;
      replacement = v.replacement;
      open_ = v.open_;
      error = v.error;
      unbuffered = v.unbuffered;
      redacts = λ f ys r.
          along ss ss rep rep _ _ _ _ refl refl (sym (append_assoc h c f))
            (sym (append_assoc (out send d w) c ys)
              ∙ ap (λ o. o ++ ys) (sym (takes w.destination c).2))
            (v.redacts (c ++ f) (c ++ ys) (
              along [] _ _ _ (c ++ f) _ _ _ (sym n) refl
                (ap (λ p. p ++ (c ++ f)) (sym (v.unbuffered n))) refl
                (Redacts-keep_all rep c f ys
                  (along _ _ _ _ _ _ _ _ n refl (ap (λ p. p ++ f) (v.unbuffered n)) refl r))));
    }

    write-Holds : (h c : Bytes) (w : Writer S E) → Holds h w → Holds (h ++ c) (write send w c).2
    write-Holds h c w v = split ss refl
      where
        split : (s : List Bytes) → ss ≡ s → Holds (h ++ c) (write send w c).2
        split [] e = subst (Holds (h ++ c)) (sym passes) (passed_Holds h c w e v)
          where
            passes : (write send w c).2 ≡ record w { destination = (send w.destination c).2 }
            passes = unfold write in ground (arith, v, takes w.destination c)
        split (x ∷ xs) e = subst (Holds (h ++ c)) (sym buffers) (buffered-Holds h c w (λ q. cc) v)
          where
            buffers :
                (write send w c).2 ≡ process send false (record w { pending = w.pending ++ c })
            buffers = unfold write in ground (arith, v)

    write_all-Holds :
        (h : Bytes) (cs : List Bytes) (w : Writer S E)
        → Holds h w
        → Holds (h ++ joined cs) (write_all send w cs)
    unfolding write_all
    write_all-Holds h [] w v = subst (λ t. Holds t w) (sym (append-nil h)) v
    write_all-Holds h (c ∷ cs) w v =
        subst (λ t. Holds t (write_all send (write send w c).2 cs)) (append_assoc h c (joined cs))
          (write_all-Holds (h ++ c) cs (write send w c).2 (write-Holds h c w v))

    close-Holds :
        (h : Bytes) (w : Writer S E)
        → Holds h w
        → ((close send w).0 ≡ none) × Redacts ss rep h (out send d (close send w).1)
    close-Holds h w v =
        let w' = record w { closed = true } in
        let (e, s) = process_lem send d true w' v.error in
        let closes : close send w ≡ ((process send true w').error, process send true w') =
          unfold close in ground (arith, v) in
        rw closes (
          e.same.error,
          along ss ss rep rep _ _ _ _ refl refl (append-nil h)
              (append-nil (out send d w ++ e.e) ∙ sym e.out_eq)
              (along _ _ _ _ _ _ _ _ refl refl refl (sym (append_assoc (out send d w) e.e [])) (
                v.redacts [] (e.e ++ []) (
                  along _ _ _ _ _ _ _ _ v.secrets v.replacement refl refl (
                    e.redacts [] [] (λ _. refl)
                      (subst (λ p. Redacts w.secrets w.replacement (p ++ []) [])
                        (sym (drained (process send true w').pending s)) done))))),
        )
      where
        drained :
            (p : Bytes)
            → (p ≡ [])
              ⊎ ((true ≡ false)
                  × (any_may_become (process send true (record w { closed = true })).secrets p
                      ≡ true))
            → p ≡ []
        drained p (inl e) = e
        drained p (inr (q, _)) = absurd (cc)

  -- A fresh writer over a reliable destination that has got nothing yet: whatever is written, in
  -- whatever pieces, Close returns no error, and the destination has got exactly the redaction of the
  -- joined pieces: at each place the longest secret is replaced, and every other byte is kept.
  pub Redacts-whole_stream :
      (w : Writer S E) (cs : List Bytes)
      → IsFresh w
      → received w.destination ≡ []
      → let (e, w') = close send (write_all send w cs) in
        (e ≡ none) × Redacts w.secrets w.replacement (joined cs) (received w'.destination)
  Redacts-whole_stream w cs fresh start =
      close-Holds w.secrets w.replacement (joined cs) (write_all send w cs) (
        write_all-Holds w.secrets w.replacement [] cs w (record {
          secrets = refl;
          replacement = refl;
          open_ = fresh.open_;
          error = fresh.no_error;
          unbuffered = λ _. fresh.no_pending;
          redacts = λ f ys r.
              along _ _ _ _ _ _ _ _ refl refl (ap (λ p. p ++ f) fresh.no_pending)
                (ap (λ o. o ++ ys) (sym start)) r;
        }))

  -- Over a reliable destination that has got nothing yet, how a text is cut into writes to a fresh
  -- writer does not show in what the destination has got after Close.
  pub pieces_do_not_show :
      (w : Writer S E) (cs cs' : List Bytes)
      → IsFresh w
      → received w.destination ≡ []
      → joined cs ≡ joined cs'
      → received (close send (write_all send w cs)).1.destination
        ≡ received (close send (write_all send w cs')).1.destination
  pieces_do_not_show w cs cs' fresh start same =
      Redacts-unique (Redacts-whole_stream w cs fresh start).1
        (along _ _ _ _ _ _ _ _ refl refl (sym same) refl (Redacts-whole_stream w cs' fresh start).1)
