-- ===== src/Redact/Creation.antt =====
-- internal/operation/redact/writer.go: NewWriter, and the replacement that it chooses.
use autback.Prelude.{
  ◌≡◌, refl, Bool, true, false, not, ◌&&◌, ◌||◌, Option, none, some, List, [], ◌∷◌, arith, length,
  ltb, ◌==◌, if◌then◌else◌, All, All-map, Bool-cases, inl, inr,
}
use autback.Redact.{Bytes, Writer, bytes_eq, is_empty}
use autback.Redact.Prefix.{begins}
use autback.Redact.Whole.{IsFresh}

pub data Refusal : Type 0 where
  destination_required empty_secret : Refusal

pub data Creation (S E : Type 0) : Type 0 where
  made : Writer S E → Creation S E
  refused : Refusal → Creation S E

-- bytes.Contains
unfoldable pub contains : Bytes → Bytes → Bool
contains secret [] = begins secret []
contains secret (x ∷ text) = begins secret (x ∷ text) || contains secret text

-- replacementCandidates
abbrev pub candidates : List Bytes
candidates =
    (91 ∷ 82 ∷ 69 ∷ 68 ∷ 65 ∷ 67 ∷ 84 ∷ 69 ∷ 68 ∷ 93 ∷ [])
    ∷ (42 ∷ 42 ∷ 42 ∷ [])
    ∷ (91 ∷ 72 ∷ 73 ∷ 68 ∷ 68 ∷ 69 ∷ 78 ∷ 93 ∷ [])
    ∷ []

unfoldable pub is_safe : Bytes → List Bytes → Bool
is_safe candidate [] = true
is_safe candidate (s ∷ ss) = not (contains s candidate) && is_safe candidate ss

unfoldable pub first_safe : List Bytes → List Bytes → Bytes
first_safe [] secrets = []
first_safe (c ∷ cs) secrets = if is_safe c secrets then c else first_safe cs secrets

-- safeReplacement
unfoldable pub safe_replacement : List Bytes → Bytes
safe_replacement secrets = first_safe candidates secrets

-- bytes.Compare(a, b) < 0
unfoldable pub bytes_less : Bytes → Bytes → Bool
bytes_less xs [] = false
bytes_less [] (b ∷ ys) = true
bytes_less (a ∷ xs) (b ∷ ys) = ltb a b || a == b && bytes_less xs ys

-- The order that the secrets are sorted in: the longest first.
unfoldable pub goes_first : Bytes → Bytes → Bool
goes_first a b = if length a == length b then bytes_less a b else ltb (length b) (length a)

unfoldable pub insert_secret : Bytes → List Bytes → List Bytes
insert_secret s [] = s ∷ []
insert_secret s (t ∷ ts) = if goes_first s t then s ∷ t ∷ ts else t ∷ insert_secret s ts

unfoldable pub is_known : Bytes → List Bytes → Bool
is_known v [] = false
is_known v (s ∷ ss) = bytes_eq v s || is_known v ss

-- The loop of NewWriter: it keeps the secrets sorted as it goes, and the order leaves no choice between
-- secrets that differ. None is an empty value.
unfoldable pub collect : List Bytes → List Bytes → Option (List Bytes)
collect [] secrets = some secrets
collect (v ∷ vs) secrets =
    let fresh = collect vs (insert_secret v secrets) in
    let known = collect vs secrets in
    if is_empty v then none else if is_known v secrets then known else fresh

module _ {S E : Type 0} where
  abbrev pub created : S → Option (List Bytes) → Creation S E
  created d none = refused Refusal.empty_secret
  created d (some secrets) = made (record {
    destination = d;
    secrets = secrets;
    replacement = safe_replacement secrets;
    pending = [];
    closed = false;
    error = none;
  })

  -- NewWriter
  unfoldable pub new_writer : Option S → List Bytes → Creation S E
  new_writer none values = refused Refusal.destination_required
  new_writer (some d) values = created d (collect values [])

-- A secret that hides nothing of itself in the replacement.
abbrev pub IsHidden : Bytes → Bytes → Type 0
IsHidden replacement secret = (is_empty secret ≡ false) × (contains secret replacement ≡ false)

is_safe_lem :
    (c : Bytes) (ss : List Bytes)
    → is_safe c ss ≡ true
    → All (λ s. is_empty s ≡ false) ss
    → All (IsHidden c) ss
unfolding is_safe
is_safe_lem c [] h v = tt
is_safe_lem c (s ∷ ss) h (a, v) = ((a, ground arith), is_safe_lem c ss (ground arith) v)

nothing_hides : (s : Bytes) → is_empty s ≡ false → IsHidden [] s
unfolding contains
nothing_hides [] h = absurd (cc)
nothing_hides (a ∷ s) h = (refl, refl)

first_safe_lem :
    (cs ss : List Bytes) → All (λ s. is_empty s ≡ false) ss → All (IsHidden (first_safe cs ss)) ss
unfolding first_safe
first_safe_lem [] ss v = All-map _ _ ss (λ s h. nothing_hides s h) v
first_safe_lem (c ∷ cs) ss v = elim (Bool-cases (is_safe c ss)) [
  | inl e ↦ rw e (is_safe_lem c ss e v)
  | inr e ↦ rw e (first_safe_lem cs ss v)
]

insert-All {κ} :
    (P : Bytes → Type κ) (s : Bytes) (ss : List Bytes) → P s → All P ss → All P (insert_secret s ss)
unfolding insert_secret
insert-All P s [] h v = (h, tt)
insert-All P s (t ∷ ts) h (k, v) = elim (Bool-cases (goes_first s t)) [
  | inl e ↦ rw e (h, (k, v))
  | inr e ↦ rw e (k, insert-All P s ts h v)
]

some_inj : {x y : List Bytes} → some x ≡ some y → y ≡ x
some_inj h = cc

collect-All :
    (vs ss ts : List Bytes)
    → collect vs ss ≡ some ts
    → All (λ s. is_empty s ≡ false) ss
    → All (λ s. is_empty s ≡ false) ts
unfolding collect
collect-All [] ss ts h v = rw (some_inj h) v
collect-All (w ∷ vs) ss ts h v = elim (Bool-cases (is_empty w)) [
  | inl e ↦ absurd (ground arith)
  | inr e ↦ elim (Bool-cases (is_known w ss)) [
    | inl f ↦ collect-All vs ss ts (ground arith) v
    | inr f ↦
        collect-All vs (insert_secret w ss) ts (ground arith)
          (insert-All (λ s. is_empty s ≡ false) w ss e v)
  ]
]

-- A writer that NewWriter makes is fresh, over the destination it was given, none of its secrets is
-- empty, and none of them occurs in the replacement: what is written in place of a secret does not
-- show one.
pub new_writer_hides :
    {S E : Type 0} (d : S) (values : List Bytes) (w : Writer S E)
    → new_writer (some d) values ≡ Creation.made w
    → IsFresh w × (w.destination ≡ d) × All (IsHidden w.replacement) w.secrets
unfolding new_writer safe_replacement
new_writer_hides d values w h = split (collect values []) refl
  where
    split :
        (r : Option (List Bytes))
        → collect values [] ≡ r
        → IsFresh w × (w.destination ≡ d) × All (IsHidden w.replacement) w.secrets
    split none e = absurd (ground arith)
    split (some ss) e =
        let made_of : created d (some ss) ≡ Creation.made w = ground arith in
        let same : record {
          destination = d;
          secrets = ss;
          replacement = safe_replacement ss;
          pending = [];
          closed = false;
          error = none;
        }
            ≡ w =
          ground arith in
        rw (← same) (
          record { open_ = refl; no_error = refl; no_pending = refl },
          refl,
          first_safe_lem candidates ss (collect-All values [] ss e tt),
        )
