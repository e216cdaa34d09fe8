-- ===== src/Admin/Credentials/Upload/Dialog.antt =====
-- The dialog that asks for the plan of an upload, web/src/pages/admin/credentials.tsx.
use cdk_system.Base.{
  Bool, Option, none, some, List, ◌++◌, map, Text, text, decimal, is_empty, is_given, if◌then◌else◌,
}
use cdk_system.Api.{File}
use cdk_system.Admin.BatchForm.{CredentialPlan}
use cdk_system.Admin.Credentials.Upload.{UploadPlanMode, Upload}

-- An entry of the choice of plans: its value and its label.
unfoldable pub upload_plan_option : CredentialPlan → Text × Text
upload_plan_option plan = (
  plan.plan_type,
  plan.plan_type ++ (text " · 可用 " ++ (decimal plan.available ++ (text "/" ++ decimal plan.total))),
)

-- The part below the two tabs: the choice of a plan with what is chosen, or the field for a new name.
pub data PlanField : Type 0 where
  existing_plans : List (Text × Text) → Text → PlanField
  new_plan_name : Text → PlanField

unfoldable pub plan_field : Upload → PlanField
plan_field u = elim u.upload_plan_mode [
  | UploadPlanMode.existing ↦ existing_plans (map upload_plan_option u.plans) u.selected_plan
  | UploadPlanMode.new ↦ new_plan_name u.new_plan
]

-- What the dialog shows: its line on the file, whether the tab of the plans is disabled, the part below
-- the tabs, the failure, whether its two buttons are disabled, and the label of the second one.
pub record UploadDialog : Type 0 where
  pub description : Text
  pub existing_disabled : Bool
  pub field : PlanField
  pub failure : Option Text
  pub buttons_disabled : Bool
  pub confirm_label : Text

unfoldable pub dialog_of : Upload → File → UploadDialog
dialog_of u file = record {
  description = file.name ++ text " · 上传内容将统一归入所选套餐";
  existing_disabled = is_empty u.plans;
  field = plan_field u;
  failure = if is_given u.upload_error then u.upload_error else none;
  buttons_disabled = u.uploading;
  confirm_label = if u.uploading then text "上传中…" else text "确认上传";
}

-- The dialog is open while a file is staged.
unfoldable pub upload_dialog : Upload → Option UploadDialog
upload_dialog u = elim u.pending_upload [ none ↦ none | some file ↦ some (dialog_of u file) ]
