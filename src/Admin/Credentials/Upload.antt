-- ===== src/Admin/Credentials/Upload.antt =====
-- The upload of credentials and its dialog, web/src/pages/admin/credentials.tsx: `loadPlans`,
-- `stageUpload`, `closeUploadDialog` and `handleUpload`.
pub mod Laws
pub mod Runs
pub mod Dialog
use cdk_system.Base.{
  code_points, ℕ, ◌+◌, Bool, true, false, ◌&&◌, ◌||◌, not, Option, none, some, List, [], ◌∷◌, map,
  Text, text, leb, ltb, ◌==◌, is_given, is_empty, any, ends_with, lower, trim, if◌then◌else◌,
}
use cdk_system.Api.{File, Settled, resolved, rejected, Failure, error_message}
use cdk_system.Admin.BatchForm.{CredentialPlan}

-- No unit of a surrogate pair is a control character, so the code units decide.
unfoldable pub contains_control_character : Text → Bool
contains_control_character = any (λ c. leb c 31 || (c == 127))

pub data UploadPlanMode : Type 0 where
  existing new : UploadPlanMode

pub record Upload : Type 0 where
  pub uploading : Bool
  pub plans : List CredentialPlan
  pub plans_loading : Bool
  pub plans_error : Option Text
  pub pending_upload : Option File
  pub upload_plan_mode : UploadPlanMode
  pub selected_plan : Text
  pub new_plan : Text
  pub upload_error : Option Text

unfoldable pub initial_upload : Upload
initial_upload = record {
  uploading = false;
  plans = [];
  plans_loading = true;
  plans_error = none;
  pending_upload = none;
  upload_plan_mode = UploadPlanMode.existing;
  selected_plan = [];
  new_plan = [];
  upload_error = none;
}

-- `loadPlans`, up to its request and from its answer, whose `plans` may be absent.
unfoldable pub load_plans : Upload → Upload
load_plans u = record u { plans_loading = true; plans_error = none }

-- The controls of the dialog; a choice may be taken back.
unfoldable pub change_plan_mode : UploadPlanMode → Upload → Upload
change_plan_mode mode u = record u { upload_plan_mode = mode; upload_error = none }

unfoldable pub choose_plan : Option Text → Upload → Upload
choose_plan none u = record u { selected_plan = [] }
choose_plan (some plan) u = record u { selected_plan = plan }

unfoldable pub change_new_plan : Text → Upload → Upload
change_new_plan name u = record u { new_plan = name }

abbrev listed : Option (List CredentialPlan) → List CredentialPlan
listed none = []
listed (some plans) = plans

unfoldable pub plans_settled : Settled (Option (List CredentialPlan)) → Upload → Upload
plans_settled (resolved plans) u = record u { plans = listed plans; plans_loading = false }
plans_settled (rejected e) u = record u {
  plans = [];
  plans_error = some (error_message e);
  plans_loading = false;
}

-- A notice, or none.
unfoldable pub stage_upload : File → Upload → Option Text × Upload
stage_upload file u =
    if u.plans_loading || (is_given u.plans_error || u.uploading)
    then (none, u)
    else if not (ends_with (map lower file.name) (text ".json"))
    then (some (text "请上传 .json 文件"), u)
    else (
      none,
      record u {
        pending_upload = some file;
        upload_plan_mode = if is_empty u.plans then UploadPlanMode.new else UploadPlanMode.existing;
        selected_plan = [];
        new_plan = [];
        upload_error = none;
      },
    )

unfoldable pub close_upload_dialog : Upload → Upload
close_upload_dialog u =
    if u.uploading then u else record u { pending_upload = none; upload_error = none }

-- The name of the plan that `handleUpload` checks and sends.
unfoldable pub plan_type : Upload → Text
plan_type u = elim u.upload_plan_mode [
  | UploadPlanMode.existing ↦ trim u.selected_plan
  | UploadPlanMode.new ↦ trim u.new_plan
]

abbrev missing_plan : UploadPlanMode → Text
missing_plan UploadPlanMode.existing = text "请选择套餐"
missing_plan UploadPlanMode.new = text "请输入新套餐名称"

abbrev refuse : Text → Upload → Option (File × Text) × Upload
refuse message u = (none, record u { upload_error = some message })

-- `handleUpload` up to its request, which is the file and the plan that it sends.
unfoldable pub start_upload : Option File → Upload → Option (File × Text) × Upload
start_upload none u = (none, u)
start_upload (some file) u =
    if is_empty (plan_type u)
    then refuse (missing_plan u.upload_plan_mode) u
    else if ltb 100 (code_points (plan_type u)) || contains_control_character (plan_type u)
    then refuse (text "套餐名称必须为 1 至 100 个字符，且不能包含控制字符") u
    else (some (file, plan_type u), record u { uploading = true; upload_error = none })

unfoldable pub handle_upload : Upload → Option (File × Text) × Upload
handle_upload u = start_upload u.pending_upload u

-- `handleUpload` from the answer on. A success loads the plans again; the box says whether it does.
unfoldable pub upload_settled : Settled Text → Upload → Bool × Upload
upload_settled (resolved message) u =
    (true, load_plans (record u { pending_upload = none; uploading = false }))
upload_settled (rejected e) u =
    (false, record u { upload_error = some (error_message e); uploading = false })
