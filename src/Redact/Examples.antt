-- ===== src/Redact/Examples.antt =====
-- The theorems on internal/operation/redact/writer.go over a destination that takes all bytes.
use autback.Prelude.{
  ℕ, ◌≡◌, refl, String, false, Option, none, some, List, [], ◌∷◌, ◌++◌, length, All,
}
use autback.Redact.{bytes_eq, Bytes, Writer, close, write_all}
use autback.Redact.Spec.{Redacts}
use autback.Redact.Stream.{Reliable}
use autback.Redact.Whole.{IsFresh, Redacts-whole_stream}
use autback.Redact.Creation.{
  Creation, IsHidden, new_writer, new_writer_hides, collect, insert_secret, is_known, goes_first,
  bytes_less, safe_replacement, first_safe, is_safe, contains,
}

abbrev memory : Bytes → Bytes → ℕ × Option String × Bytes
memory kept contents = (length contents, none, kept ++ contents)

abbrev reliable_memory : Reliable memory
reliable_memory = record { received = λ kept. kept; takes = λ kept contents. (refl, refl, refl) }

-- Of two secrets one begins with the other.
abbrev fresh : Writer Bytes String
fresh = record {
  destination = [];
  secrets = (1 ∷ 2 ∷ 3 ∷ []) ∷ (1 ∷ 2 ∷ []) ∷ [];
  replacement = 42 ∷ 42 ∷ 42 ∷ [];
  pending = [];
  closed = false;
  error = none;
}

fresh-IsFresh : IsFresh fresh
fresh-IsFresh = record { open_ = refl; no_error = refl; no_pending = refl }

abbrev pieces : List Bytes
pieces = (7 ∷ 1 ∷ []) ∷ (2 ∷ []) ∷ (3 ∷ 1 ∷ 2 ∷ []) ∷ []

Redacts-whole_stream_example :
    let (e, w') = close memory (write_all memory fresh pieces) in
    (e ≡ none) × Redacts fresh.secrets fresh.replacement (7 ∷ 1 ∷ 2 ∷ 3 ∷ 1 ∷ 2 ∷ []) w'.destination
Redacts-whole_stream_example =
    Redacts-whole_stream memory reliable_memory fresh pieces fresh-IsFresh refl

abbrev starred : Writer Bytes String
starred = record {
  destination = [];
  secrets = (82 ∷ 69 ∷ []) ∷ (7 ∷ []) ∷ [];
  replacement = 42 ∷ 42 ∷ 42 ∷ [];
  pending = [];
  closed = false;
  error = none;
}

-- The second value comes twice and the first candidate contains a value.
makes_starred :
    new_writer (some []) ((7 ∷ []) ∷ (82 ∷ 69 ∷ []) ∷ (7 ∷ []) ∷ []) ≡ Creation.made starred
unfolding new_writer collect insert_secret is_known goes_first bytes_less safe_replacement
    first_safe is_safe contains bytes_eq
makes_starred = refl

new_writer_hides_example :
    IsFresh starred
    × (starred.destination ≡ [])
    × All (IsHidden starred.replacement) starred.secrets
new_writer_hides_example =
    new_writer_hides [] ((7 ∷ []) ∷ (82 ∷ 69 ∷ []) ∷ (7 ∷ []) ∷ []) starred makes_starred
