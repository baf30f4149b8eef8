-- ===== src/Identity/Images.antt =====
-- internal/control/sqlite/store.go: projects, their active image and its history.
use autback.Prelude.{
  ℕ, String, Bool, ◌&&◌, not, Option, none, some, List, ◌==◌, str_eq, if◌then◌else◌, find_where,
}
use autback.Identity.Model.{PrincipalKind, Principal, Project, ProjectImageEvent, principal_kind_eq}
use autback.Identity.Tables.{
  Action, Error, pure, raise, select, transaction, check, ◌>>=◌, ◌>>◌, project_has_id,
}
use autback.Identity.Statements.{
  duplicate_as_exists, insert_project, insert_image_event, update_projects,
}
use autback.Identity.Text.{is_blank}
use autback.Identity.Secrets.{random_id}
use autback.Identity.Users.{new_project, project}

-- CreateProject
unfoldable pub create_project : ℕ → List ℕ → Principal → String → String → Action Project
create_project now bytes principal slug name =
    let p = new_project (random_id "prj" bytes) slug (if str_eq name "" then slug else name) now in
    do
      check principal.admin Error.forbidden
      check (not (is_blank slug)) Error.required
      duplicate_as_exists (insert_project p)
      pure p

-- A principal with kind device that is an admin.
abbrev pub is_device_admin : Principal → Bool
is_device_admin principal = principal_kind_eq principal.kind PrincipalKind.device && principal.admin

-- activate, or rollback
pub data ImageAction : Type 0 where
  activate : String → ImageAction
  rollback : ImageAction

abbrev pub action_name : ImageAction → String
action_name (activate image) = "activate"
action_name rollback = "rollback"

-- The image to make active, if there is one.
abbrev pub target_image : ImageAction → Project → Option String
target_image (activate image) p = some image
target_image rollback p = if str_eq p.previous_image "" then none else some p.previous_image

-- actorID
abbrev pub actor_id : Principal → String
actor_id principal = if str_eq principal.user_id "" then principal.subject else principal.user_id

abbrev pub with_image : String → Project → Project
with_image image p = record p { active_image = image; previous_image = p.active_image }

abbrev pub image_event : String → Principal → ImageAction → String → Project → ℕ → ProjectImageEvent
image_event id principal action image p now = record {
  id = id;
  project_id = p.id;
  action = action_name action;
  image = image;
  replaced_image = p.active_image;
  actor = actor_id principal;
  created_at = now;
}

abbrev pub switch_image :
    ℕ → List ℕ → Principal → ImageAction → Project → Option String → Action Project
switch_image now bytes principal action p none = raise Error.not_found
switch_image now bytes principal action p (some image) =
    if str_eq image p.active_image then pure p else do
      update_projects (project_has_id p.id)
          λ r. record r { active_image = image; previous_image = p.active_image }
      insert_image_event (image_event (random_id "img" bytes) principal action image p now)
      pure (with_image image p)

-- scanProject: the caller does not turn a missing row into ErrNotFound.
abbrev pub scanned_project : Option Project → Action Project
scanned_project none = raise Error.no_rows
scanned_project (some p) = pure p

-- changeProjectImage
unfoldable pub change_project_image : ℕ → List ℕ → Principal → String → ImageAction → Action Project
change_project_image now bytes principal id action = transaction do
  found ← select λ db. find_where (project_has_id id) db.projects
  p ← scanned_project found
  switch_image now bytes principal action p (target_image action p)

-- ActivateProjectImage
abbrev pub activate_project_image : ℕ → List ℕ → Principal → String → String → Action Project
activate_project_image now bytes principal id image = do
  check (is_device_admin principal) Error.forbidden
  change_project_image now bytes principal id (activate image)

-- RollbackProjectImage
abbrev pub rollback_project_image : ℕ → List ℕ → Principal → String → Action Project
rollback_project_image now bytes principal id = do
  check (is_device_admin principal) Error.forbidden
  change_project_image now bytes principal id rollback

-- SetProjectImagePolicy
unfoldable pub set_project_image_policy : Principal → String → Bool → Action Project
set_project_image_policy principal id allow = do
  check (is_device_admin principal) Error.forbidden
  n ← update_projects (project_has_id id) λ r. record r { allow_image_overrides = allow }
  check (n == 1) Error.not_found
  project id
