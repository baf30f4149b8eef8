-- ===== src/Redact.antt =====
-- internal/operation/redact/writer.go: a writer that hides secrets in a stream of bytes. A byte is a
-- number. The destination, an io.Writer, is a parameter: it answers with the number of bytes that it
-- took, perhaps an error, and its next state.
pub mod Prefix
pub mod Spec
pub mod Stream
pub mod Process
pub mod Whole
pub mod Creation
pub mod Examples
use autback.Prelude.{
  ℕ, zero, suc, ◌≤◌, ◌<◌, ◌≡◌, Bool, true, false, not, ◌&&◌, ◌||◌, Option, none, some, List, [],
  ◌∷◌, ◌++◌, length, take, drop, ltb, leb, ◌==◌, if◌then◌else◌,
}

abbrev pub Bytes : Type 0
Bytes = List ℕ

-- bytes.Equal
unfoldable pub bytes_eq : Bytes → Bytes → Bool
bytes_eq [] [] = true
bytes_eq (a ∷ xs) (b ∷ ys) = a == b && bytes_eq xs ys
bytes_eq _ _ = false

-- The body of the loop of matchPrefix.
unfoldable pub match_secret : Bytes → Bytes → ℕ × Bool → ℕ × Bool
unfolding bytes_eq
match_secret pending secret (exact, longer) =
    if leb (length secret) (length pending) && bytes_eq (take (length secret) pending) secret
    then (if ltb exact (length secret) then length secret else exact, longer)
    else if ltb (length pending) (length secret) && bytes_eq pending (take (length pending) secret)
    then (exact, true)
    else (exact, longer)

unfoldable pub match_from : ℕ × Bool → List Bytes → Bytes → ℕ × Bool
match_from found [] pending = found
match_from found (s ∷ ss) pending = match_from (match_secret pending s found) ss pending

-- matchPrefix: the length of the longest secret that the pending bytes begin with, and whether
-- they may still become a secret.
unfoldable pub match_prefix : List Bytes → Bytes → ℕ × Bool
match_prefix secrets pending = match_from (0, false) secrets pending

pub data Failure (E : Type 0) : Type 0 where
  short_write closed_redactor : Failure E
  failed : E → Failure E

pub record Writer (S E : Type 0) : Type 0 where
  pub destination : S
  pub secrets : List Bytes
  pub replacement : Bytes
  pub pending : Bytes
  pub closed : Bool
  pub error : Option (Failure E)

abbrev pub is_none {ℓ} : {A : Type ℓ} → Option A → Bool
is_none none = true
is_none (some a) = false

abbrev pub is_empty {ℓ} : {A : Type ℓ} → List A → Bool
is_empty [] = true
is_empty (x ∷ xs) = false

module _ {S E : Type 0} (send : S → Bytes → ℕ × Option E × S) where
  abbrev sent : Writer S E → Bytes → ℕ × Option E × S → Writer S E
  sent w contents (written, some e, s) = record w { destination = s; error = some (failed e) }
  sent w contents (written, none, s) =
      if written == length contents
      then record w { destination = s }
      else record w { destination = s; error = some short_write }

  -- write
  unfoldable pub emit : Writer S E → Bytes → Writer S E
  emit w contents = if is_empty contents then w else sent w contents (send w.destination contents)

  abbrev advance : Writer S E → ℕ → Writer S E
  advance w n = record w { pending = drop n w.pending }

  abbrev pub Turn : Type 0
  Turn = Writer S E × Bool

  -- One turn of the loop of process: the writer after it, and whether the loop goes on.
  unfoldable pub turn : Bool → Writer S E → ℕ × Bool → Turn
  turn final w (exact, longer) =
      if ltb 0 exact && (final || not longer)
      then (advance (emit w w.replacement) exact, true)
      else if longer && not final
      then (w, false)
      else (advance (emit w (take 1 w.pending)) 1, true)

  -- process, with a bound on its turns. Each turn that goes on takes a byte or more from `pending`.
  unfoldable pub process_fuel : ℕ → Bool → Writer S E → Writer S E
  process_fuel zero final w = w
  process_fuel (suc fuel) final w = elim (is_empty w.pending || not (is_none w.error)) [
    | true ↦ w
    | false ↦
        let (w', more) = turn final w (match_prefix w.secrets w.pending) in
        elim more [ true ↦ process_fuel fuel final w' | false ↦ w' ]
  ]

  unfoldable pub process : Bool → Writer S E → Writer S E
  process final w = process_fuel (length w.pending) final w

  abbrev passed : Writer S E → ℕ × Option E × S → ℕ × Option (Failure E) × Writer S E
  passed w (written, some e, s) =
      (written, some (failed e), record w { destination = s; error = some (failed e) })
  passed w (written, none, s) = (written, none, record w { destination = s })

  abbrev buffered : ℕ → Writer S E → ℕ × Option (Failure E) × Writer S E
  buffered n w = (n, w.error, w)

  -- Write: the count, the error and the writer after it.
  unfoldable pub write : Writer S E → Bytes → ℕ × Option (Failure E) × Writer S E
  write w contents =
      if w.closed
      then (0, some closed_redactor, w)
      else if not (is_none w.error)
      then (0, w.error, w)
      else if is_empty w.secrets
      then passed w (send w.destination contents)
      else buffered (length contents) (process false (record w { pending = w.pending ++ contents }))

  -- Close
  unfoldable pub close : Writer S E → Option (Failure E) × Writer S E
  close w =
      if w.closed
      then (w.error, w)
      else let w' = record w { closed = true } in
        let w'' = if is_none w.error then process true w' else w' in (w''.error, w'')

  -- A client that writes pieces one after the other.
  unfoldable pub write_all : Writer S E → List Bytes → Writer S E
  write_all w [] = w
  write_all w (c ∷ cs) = write_all (write w c).2 cs
