-- ===== src/Admin/Tests/Uploads.antt =====
-- A run of the upload of credentials.
use cdk_system.Base.{
  ◌≡◌, refl, false, none, [], ◌∷◌, text, trim, trim_start, is_space, code_points, ends_with,
  starts_with, lower, any,
}
use cdk_system.Api.{File, resolved}
use cdk_system.Admin.Credentials.Upload.{
  initial_upload, plan_type, plans_settled, change_new_plan, stage_upload, start_upload,
  handle_upload, contains_control_character,
}
use cdk_system.Admin.Credentials.Upload.Runs.{
  Session, started, Reach, start, next, plans, stage, to_name, confirm, IsSoundSession,
  Reach-IsSoundSession,
}

abbrev file : File
file = record { name = text "A.JSON"; mime = text "application/json"; size = 2 }

abbrev first : Session
first = record { form = initial_upload; running = [] }

-- There is no plan yet, a file is staged, and a name is typed.
abbrev listed : Session
listed = record first { form = plans_settled (resolved none) first.form }

abbrev staged : Session
staged = record listed { form = (stage_upload file listed.form).1 }

abbrev named : Session
named = record staged { form = change_new_plan (text " plus ") staged.form }

abbrev confirmed : Session
confirmed = record {
  form = (handle_upload named.form).1;
  running = started (handle_upload named.form).0;
}

named-uploading : named.form.uploading ≡ false
unfolding initial_upload plans_settled stage_upload change_new_plan text ends_with starts_with lower
named-uploading = refl

confirmed-Reach : Reach confirmed
unfolding initial_upload plans_settled stage_upload change_new_plan
confirmed-Reach =
    next
      (next (next (next start (plans (resolved none) first)) (stage file listed))
        (to_name (text " plus ") staged))
      (confirm named named-uploading)

Reach-IsSoundSession_example : IsSoundSession confirmed
Reach-IsSoundSession_example = Reach-IsSoundSession confirmed confirmed-Reach

-- The upload runs, under the trimmed name.
running-confirmed : confirmed.running ≡ (file, text "plus") ∷ []
unfolding initial_upload plans_settled stage_upload change_new_plan handle_upload start_upload
    plan_type contains_control_character any text ends_with starts_with lower trim trim_start
    is_space code_points
running-confirmed = refl
