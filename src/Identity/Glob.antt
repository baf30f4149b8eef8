-- ===== src/Identity/Glob.antt =====
-- `glob` of internal/control/sqlite/store.go: a pattern against a value, as lists of code points. A
-- rune that a text cannot be decoded to is not modelled.
use Prim.Native.Char.{code}
use Prim.Native.String.{String as Text}
use autback.Prelude.{
  ℕ, zero, suc, ◌+◌, ◌*◌, String, Bool, true, false, ◌&&◌, ◌||◌, Option, none, some, List, [], ◌∷◌,
  ◌==◌, if◌then◌else◌, length,
}

abbrev pub Runes : Type 0
Runes = List ℕ

-- []rune(s)
abbrev pub runes : String → Runes
runes Text.[] = []
runes (Text.◌∷◌ c s) = code c ∷ runes s

abbrev pub star : ℕ
star = 42

abbrev pub question : ℕ
question = 63

-- The pattern after the last star, and the value from starValueIndex. It is `none` while starIndex
-- is negative.
abbrev pub Back : Type 0
Back = Option (Runes × Runes)

-- `none` is a run that the fuel cuts short.
abbrev pub Round : Type 0
Round = Runes → Runes → Back → Option Bool

abbrev pub tail : Runes → Runes
tail [] = []
tail (c ∷ s) = s

-- The last two cases of the loop.
abbrev pub retry : Back → Round → Option Bool
retry none next = some false
retry (some (bp, bs)) next = next bp (tail bs) (some (bp, tail bs))

-- The loop after the value's end.
abbrev pub only_stars : Runes → Bool
only_stars [] = true
only_stars (a ∷ p) = a == star && only_stars p

-- patternRunes[patternIndex] == '?' || patternRunes[patternIndex] == valueRunes[valueIndex]
abbrev pub accepts : ℕ → ℕ → Bool
accepts a c = a == question || a == c

unfoldable pub glob_from : ℕ → Round
glob_from zero p s back = none
glob_from (suc f) p [] back = some (only_stars p)
glob_from (suc f) [] (c ∷ s) back = retry back (glob_from f)
glob_from (suc f) (a ∷ p) (c ∷ s) back =
    let forward = glob_from f p s back in
    let restart = glob_from f p (c ∷ s) (some (p, c ∷ s)) in
    let again = retry back (glob_from f) in
    if accepts a c then forward else if a == star then restart else again

abbrev pub glob_runes : Runes → Runes → Option Bool
glob_runes p s = glob_from ((length s + 1) * (length p + 1)) p s none

-- glob
unfoldable pub glob : String → String → Option Bool
unfolding glob_from
glob pattern value = glob_runes (runes pattern) (runes value)
