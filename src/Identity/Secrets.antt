-- ===== src/Identity/Secrets.antt =====
-- The secrets of internal/control/sqlite/store.go: how one is written and read again. The random
-- bytes of an id and the base64 text of a secret's are arguments, and so is the keyed digest.
use autback.Prelude.{
  ℕ, ◌%◌, String, ◌&&◌, not, Option, none, some, List, [], ◌∷◌, str_eq, if◌then◌else◌, take, drop,
}
use autback.Identity.Model.{PrincipalKind}
use autback.Identity.Text.{◌<>◌, split_n, char_of, hex_encode}

-- What an operation is given from outside: Go's case tables, the digest under the server's pepper.
pub record Platform : Type 0 where
  pub to_lower : String → String
  pub to_upper : String → String
  pub digest : String → String

-- The random bytes of an id, and of a secret, the second as its base64 text.
pub record Entropy : Type 0 where
  pub id_bytes : List ℕ
  pub secret_text : String

pub record NewSecret : Type 0 where
  pub id : String
  pub secret : String
  pub digest : String

-- randomID
abbrev pub random_id : String → List ℕ → String
random_id prefix value = prefix <> hex_encode value

abbrev pub secret_of : String → String → String → String
secret_of kind id text = "autback_" <> kind <> "_" <> id <> "_" <> text

-- newToken
abbrev pub new_token : Platform → String → Entropy → NewSecret
new_token env kind random =
    let id = random_id "tok" random.id_bytes in
    let secret = secret_of kind id random.secret_text in
    record { id = id; secret = secret; digest = env.digest secret }

-- newOpaque
abbrev pub new_opaque : Platform → String → Entropy → NewSecret
new_opaque env kind random =
    let id = random_id kind random.id_bytes in
    let secret = secret_of kind id random.secret_text in
    record { id = id; secret = secret; digest = env.digest secret }

abbrev pub opaque_parts : String → List String → Option String
opaque_parts kind (a ∷ k ∷ id ∷ secret ∷ []) =
    if str_eq a "autback" && str_eq k kind && not (str_eq id "") && not (str_eq secret "")
    then some id
    else none
opaque_parts kind _ = none

-- parseOpaque
unfoldable pub parse_opaque : String → String → Option String
unfolding split_n
parse_opaque value kind = opaque_parts kind (split_n 3 value)

abbrev pub principal_kind : String → Option PrincipalKind
principal_kind k =
    if str_eq k "dt"
    then some PrincipalKind.device
    else if str_eq k "gh"
    then some PrincipalKind.github
    else if str_eq k "ws"
    then some PrincipalKind.browser
    else none

abbrev pub with_id : String → Option PrincipalKind → Option (PrincipalKind × String)
with_id id none = none
with_id id (some kind) = some (kind, id)

abbrev pub token_parts : List String → Option (PrincipalKind × String)
token_parts (a ∷ k ∷ id ∷ secret ∷ []) =
    if str_eq a "autback" && not (str_eq id "") && not (str_eq secret "")
    then with_id id (principal_kind k)
    else none
token_parts _ = none

-- parseToken
unfoldable pub parse_token : String → Option (PrincipalKind × String)
unfolding split_n
parse_token token = token_parts (split_n 3 token)

-- randomUserCode: each random byte picks a letter.
unfoldable pub letters : List ℕ → String
unfolding char_of
letters [] = ""
letters (b ∷ bytes) = char_of "ABCDEFGHJKLMNPQRSTUVWXYZ23456789" (b % 32) <> letters bytes

-- The eight letters are cut into two groups of four.
unfoldable pub random_user_code : List ℕ → String
unfolding letters
random_user_code bytes = letters (take 4 bytes) <> "-" <> letters (drop 4 bytes)
