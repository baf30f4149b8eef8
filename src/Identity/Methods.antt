-- ===== src/Identity/Methods.antt =====
-- Every method of internal/control/sqlite/store.go on the accounts keeps the invariant, loses no row
-- of the tables that only grow, and moves each row only forwards.
use autback.Prelude.{ℕ, ◌≡◌, String, Bool, true, Option, none, some, List, arith}
use autback.Identity.Model.{PrincipalKind, Principal, User, Project, Bootstrap}
use autback.Identity.Tables.{TokenRow, token_has_id}
use autback.Identity.Secrets.{Platform, Entropy}
use autback.Identity.Users
use autback.Identity.Images
use autback.Identity.Evolution.{TokenEvolves}
use autback.Identity.Advances.{Sound, actions}

-- The rows that the UPDATEs change.
use_token_evolves :
    (id : String) (now : ℕ) (r : TokenRow)
    → token_has_id id r ≡ true
    → TokenEvolves r (Users.use_token now r)
use_token_evolves id now r h = ground arith

ruleset steps = (use_token_evolves)

pub Sound-bootstrap :
    (env : Platform) (now : ℕ) (users projects : List ℕ) (random : Entropy) (input : Bootstrap)
    → Sound (Users.bootstrap env now users projects random input)
unfolding Users.bootstrap
Sound-bootstrap env now users projects random input = search actions depth 12

Sound-is_admin : (u : Option User) → Sound (Users.is_admin u)
Sound-is_admin none = search actions
Sound-is_admin (some u) = search actions

Sound-authenticate_row :
    (env : Platform) (now used : ℕ) (token : String) (kind : PrincipalKind) (r : Option TokenRow)
    → Sound (Users.authenticate_row env now used token kind r)
Sound-authenticate_row env now used token kind none = search actions
Sound-authenticate_row env now used token kind (some r) =
    search (actions, steps, Sound-is_admin) depth 8

Sound-authenticate_parsed :
    (env : Platform) (now used : ℕ) (token : String) (r : Option (PrincipalKind × String))
    → Sound (Users.authenticate_parsed env now used token r)
Sound-authenticate_parsed env now used token none = search actions
Sound-authenticate_parsed env now used token (some (kind, id)) =
    search (actions, Sound-authenticate_row)

pub Sound-authenticate :
    (env : Platform) (now used : ℕ) (token : String) → Sound (Users.authenticate env now used token)
unfolding Users.authenticate
Sound-authenticate env now used token = Sound-authenticate_parsed env now used token _

Sound-found_project : (p : Option Project) → Sound (Users.found_project p)
Sound-found_project none = search actions
Sound-found_project (some p) = search actions

Sound-project : (selector : String) → Sound (Users.project selector)
unfolding Users.project
Sound-project selector = search (actions, Sound-found_project)

Sound-grant_project : (p : Principal) (q : Project) → Sound (Users.grant_project p q)
Sound-grant_project p q = search actions depth 10

pub Sound-authorize_project :
    (p : Principal) (selector : String) → Sound (Users.authorize_project p selector)
unfolding Users.authorize_project
Sound-authorize_project p selector = search (actions, Sound-project, Sound-grant_project)

pub Sound-create_user :
    (now : ℕ) (bytes : List ℕ) (p : Principal) (name : String) (admin : Bool)
    → Sound (Users.create_user now bytes p name admin)
unfolding Users.create_user
Sound-create_user now bytes p name admin = search actions depth 8

Sound-insert_or_ignore :
    (project user : String) (now : ℕ) → Sound (Users.insert_or_ignore_member project user now)
unfolding Users.insert_or_ignore_member
Sound-insert_or_ignore project user now = search actions depth 8

pub Sound-add_project_member :
    (now : ℕ) (p : Principal) (selector user : String)
    → Sound (Users.add_project_member now p selector user)
unfolding Users.add_project_member
Sound-add_project_member now p selector user =
    search (actions, Sound-authorize_project, Sound-insert_or_ignore) depth 9

-- Projects and their images.
pub Sound-create_project :
    (now : ℕ) (bytes : List ℕ) (p : Principal) (slug name : String)
    → Sound (Images.create_project now bytes p slug name)
unfolding Images.create_project
Sound-create_project now bytes p slug name = search actions depth 8

Sound-scanned_project : (p : Option Project) → Sound (Images.scanned_project p)
Sound-scanned_project none = search actions
Sound-scanned_project (some p) = search actions

Sound-switch_image :
    (now : ℕ) (bytes : List ℕ) (p : Principal) (action : Images.ImageAction) (q : Project)
    (image : Option String)
    → Sound (Images.switch_image now bytes p action q image)
Sound-switch_image now bytes p action q none = search actions
Sound-switch_image now bytes p action q (some image) = search actions depth 8

pub Sound-change_project_image :
    (now : ℕ) (bytes : List ℕ) (p : Principal) (id : String) (action : Images.ImageAction)
    → Sound (Images.change_project_image now bytes p id action)
unfolding Images.change_project_image
Sound-change_project_image now bytes p id action =
    search (actions, Sound-scanned_project, Sound-switch_image) depth 8

pub Sound-activate_project_image :
    (now : ℕ) (bytes : List ℕ) (p : Principal) (id image : String)
    → Sound (Images.activate_project_image now bytes p id image)
Sound-activate_project_image now bytes p id image = search (actions, Sound-change_project_image)

pub Sound-rollback_project_image :
    (now : ℕ) (bytes : List ℕ) (p : Principal) (id : String)
    → Sound (Images.rollback_project_image now bytes p id)
Sound-rollback_project_image now bytes p id = search (actions, Sound-change_project_image)

pub Sound-set_project_image_policy :
    (p : Principal) (id : String) (allow : Bool)
    → Sound (Images.set_project_image_policy p id allow)
unfolding Images.set_project_image_policy
Sound-set_project_image_policy p id allow = search (actions, Sound-project) depth 8
