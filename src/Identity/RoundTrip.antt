-- ===== src/Identity/RoundTrip.antt =====
-- What newToken and newOpaque of internal/control/sqlite/store.go write, parseToken and parseOpaque
-- read.
use Prim.Native.Char.{code}
use Prim.Native.String.{String as Text}
use text.Mathlib.TextLemmas.{cons≢nil, cons-append, append_assoc, nil-append}
use autback.Prelude.{
  ℕ, zero, suc, ◌/◌, ◌%◌, ◌≡◌, refl, ap, ◌∙◌, String, Bool, true, ◌&&◌, not, List, [], ◌∷◌, ◌==◌,
  arith, some, none, str_eq, eq_iff, if◌then◌else◌, ◌≢◌,
}
use autback.Identity.Model.{PrincipalKind}
use autback.Identity.Text.{◌<>◌, split_n, char_of, hex_digit, hex_encode}
use autback.Identity.Secrets

-- The text has no separator.
abbrev pub joined : String → Bool
joined Text.[] = true
joined (Text.◌∷◌ c s) = not (code c == 95) && joined s

joined-append : (s t : String) → joined s ≡ true → joined t ≡ true → joined (s <> t) ≡ true
joined-append Text.[] t h k = ap joined (nil-append t) ∙ k
joined-append (Text.◌∷◌ c s) t h k =
    ap joined (cons-append c s t) ∙ ground (arith, joined-append s t)

joined-char_of : (s : String) (n : ℕ) → joined s ≡ true → joined (char_of s n) ≡ true
unfolding char_of
joined-char_of Text.[] n h = refl
joined-char_of (Text.◌∷◌ c s) zero h = ground arith
joined-char_of (Text.◌∷◌ c s) (suc n) h = joined-char_of s n (ground arith)

joined-hex_encode : (bytes : List ℕ) → joined (hex_encode bytes) ≡ true
unfolding hex_encode
joined-hex_encode [] = refl
joined-hex_encode (b ∷ bytes) =
    joined-append (hex_digit (b / 16 % 16)) _ (joined-char_of "0123456789abcdef" (b / 16 % 16) refl)
      (joined-append (hex_digit (b % 16)) _ (joined-char_of "0123456789abcdef" (b % 16) refl)
        (joined-hex_encode bytes))

separator : (rest : String) → "_" <> rest ≡ Text.◌∷◌ "_" rest
separator rest = cons-append "_" "" rest ∙ ap (Text.◌∷◌ "_") (nil-append rest)

-- A part ends at the next separator.
split_n-part :
    (n : ℕ) (part rest : String)
    → joined part ≡ true
    → split_n (suc n) (part <> "_" <> rest) ≡ part ∷ split_n n rest
unfolding split_n
split_n-part n Text.[] rest h = ap (split_n (suc n)) (nil-append _ ∙ separator rest)
split_n-part n (Text.◌∷◌ c s) rest h =
    ap (split_n (suc n)) (cons-append c s ("_" <> rest)) ∙ ground (arith, split_n-part n s rest)

-- The parts of a secret are its product's name, its kind, its id and the rest.
split_n-secret_of :
    (kind id text : String)
    → joined kind ≡ true
    → joined id ≡ true
    → split_n 3 (Secrets.secret_of kind id text) ≡ "autback" ∷ kind ∷ id ∷ text ∷ []
unfolding split_n
split_n-secret_of kind id text h k =
    ap (split_n 3) (append_assoc "autback" "_" (kind <> "_" <> id <> "_" <> text))
    ∙ split_n-part 2 "autback" (kind <> "_" <> id <> "_" <> text) refl
    ∙ ap (◌∷◌ "autback")
        (split_n-part 1 kind (id <> "_" <> text) h ∙ ap (◌∷◌ kind) (split_n-part 0 id text k))

-- A random id has its prefix's characters first, so it is not empty.
joined-random_id :
    (prefix : String) (bytes : List ℕ)
    → joined prefix ≡ true
    → joined (Secrets.random_id prefix bytes) ≡ true
joined-random_id prefix bytes h = joined-append prefix _ h (joined-hex_encode bytes)

abbrev nonempty : String → Bool
nonempty s = not (str_eq s "")

nonempty-append : (s t : String) → nonempty s ≡ true → nonempty (s <> t) ≡ true
nonempty-append Text.[] t h = absurd (ground arith)
nonempty-append (Text.◌∷◌ c s) t h =
    ap nonempty (cons-append c s t)
    ∙ ground (arith, eq_iff (Text.◌∷◌ c (s <> t)) "", cons≢nil {x = c} {xs = s <> t})

joined-kind :
    (kind : String) (p : PrincipalKind) → Secrets.principal_kind kind ≡ some p → joined kind ≡ true
joined-kind kind p h = ground (
  arith,
  eq_iff kind "dt",
  eq_iff kind "gh",
  eq_iff kind "ws",
  ap joined {x = kind} {y = "dt"},
  ap joined {x = kind} {y = "gh"},
  ap joined {x = kind} {y = "ws"},
)

-- Reading the secret of a new token gives back the token's kind and id, for each kind of principal
-- that has tokens and any secret text that is not empty.
pub parse_token-new_token :
    (env : Secrets.Platform) (kind : String) (p : PrincipalKind) (random : Secrets.Entropy)
    → Secrets.principal_kind kind ≡ some p
    → random.secret_text ≢ ""
    → Secrets.parse_token (Secrets.new_token env kind random).secret
      ≡ some (p, (Secrets.new_token env kind random).id)
unfolding Secrets.parse_token
parse_token-new_token env kind p random h k =
    ap Secrets.token_parts (
      split_n-secret_of kind (Secrets.random_id "tok" random.id_bytes) random.secret_text
        (joined-kind kind p h) (joined-random_id "tok" random.id_bytes refl))
    ∙ ground (
      arith,
      eq_iff random.secret_text "",
      nonempty-append "tok" (hex_encode random.id_bytes) refl,
    )

-- Reading the secret of a new login code gives back its id, under the kind it was made for, and
-- under no other kind.
pub parse_opaque-new_opaque :
    (env : Secrets.Platform) (kind other : String) (random : Secrets.Entropy)
    → joined kind ≡ true
    → kind ≢ ""
    → random.secret_text ≢ ""
    → Secrets.parse_opaque (Secrets.new_opaque env kind random).secret other
      ≡ (if str_eq kind other then some (Secrets.new_opaque env kind random).id else none)
unfolding Secrets.parse_opaque
parse_opaque-new_opaque env kind other random h nonblank k =
    ap (Secrets.opaque_parts other) (
      split_n-secret_of kind (Secrets.random_id kind random.id_bytes) random.secret_text h
        (joined-random_id kind random.id_bytes h))
    ∙ ground (
      arith,
      eq_iff random.secret_text "",
      eq_iff kind "",
      nonempty-append kind (hex_encode random.id_bytes),
    )
