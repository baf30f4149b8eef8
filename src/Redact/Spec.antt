-- ===== src/Redact/Spec.antt =====
-- What the redactor of internal/operation/redact/writer.go does to a whole text, with no buffer.
use autback.Prelude.{
  ℕ, zero, suc, ◌≤◌, ◌<◌, ◌≡◌, refl, true, List, [], ◌∷◌, ◌++◌, arith, length, drop,
}
use autback.Redact.{Bytes}
use autback.Redact.Prefix.{begins, longest}

-- From left to right, the longest secret that stands at the front is replaced, and where none does
-- one byte is kept.
pub data Redacts (secrets : List Bytes) (replacement : Bytes) : Bytes → Bytes → Type 0 where
  done : Redacts secrets replacement [] []
  hide :
      {text out all : Bytes}
      → 0 < longest secrets text
      → Redacts secrets replacement (drop (longest secrets text) text) out
      → all ≡ replacement ++ out
      → Redacts secrets replacement text all
  keep :
      {x : ℕ} {text out : Bytes}
      → longest secrets (x ∷ text) ≡ 0
      → Redacts secrets replacement text out
      → Redacts secrets replacement (x ∷ text) (x ∷ out)

begins-le : (s p : Bytes) → begins s p ≡ true → length s ≤ length p
begins-le [] p h = omega arith
begins-le (a ∷ s) [] h = absurd (ground arith)
begins-le (a ∷ s) (b ∷ p) h = ground (arith, begins-le s p)

pub longest-le : (ss : List Bytes) (p : Bytes) → longest ss p ≤ length p
longest-le [] p = omega arith
longest-le (s ∷ ss) p = ground (arith, begins-le s p, longest-le ss p)

pub drop-append : (n : ℕ) (p f : Bytes) → n ≤ length p → drop n (p ++ f) ≡ drop n p ++ f
drop-append zero p f h = refl
drop-append (suc n) [] f h = absurd (omega arith)
drop-append (suc n) (x ∷ p) f h = drop-append n p f (omega arith)

longest-nil : (ss : List Bytes) → longest ss [] ≡ 0
longest-nil ss = ground (arith, longest-le ss [])

-- A text has one redaction.
pub Redacts-unique :
    {secrets : List Bytes} {replacement text out out' : Bytes}
    → Redacts secrets replacement text out
    → Redacts secrets replacement text out'
    → out ≡ out'
Redacts-unique done done = refl
Redacts-unique {secrets} done (hide n r e) = absurd (ground (arith, longest-nil secrets))
Redacts-unique {secrets} (hide n r e) done = absurd (ground (arith, longest-nil secrets))
Redacts-unique (hide n r e) (hide n' r' e') = ground (arith, Redacts-unique r r')
Redacts-unique (hide n r e) (keep z r') = absurd (omega arith)
Redacts-unique (keep z r) (hide n' r' e') = absurd (omega arith)
Redacts-unique (keep z r) (keep z' r') = ground (arith, Redacts-unique r r')
