-- ===== src/Admin/Settings/Shown.antt =====
-- What the page of the site settings shows, web/src/pages/admin/site-settings.tsx, and when the settings
-- can be saved.
use cdk_system.Base.{
  ℕ, ◌≡◌, refl, Bool, true, false, ◌||◌, ◌&&◌, not, Option, none, some, ◌++◌, Text, text, text_eq,
  text_eq_iff, text_or, is_empty, is_some, decimal, trim, code_points, ltb, if◌then◌else◌,
  Bool-cases, inl, inr, arith,
}
use cdk_system.Api.{File, resolved}
use cdk_system.Admin.Settings.{
  SiteSettings, loading, ready, failed, Context, Form, handle_submit, submit_settled,
  replace_settings,
}

-- The page: grey boxes, the failure of the settings, or the form, which starts anew under another key.
pub data PageView : Type 0 where
  skeletons : PageView
  failure : Text → PageView
  form : Text → PageView

abbrev error_text : Option Text → Text
error_text none = text "请稍后重试"
error_text (some e) = text_or e (text "请稍后重试")

unfoldable pub page_view : Context → PageView
page_view c = elim c.status [
  | loading ↦ skeletons
  | failed ↦ failure (error_text c.error)
  | ready ↦ form (text_or c.settings.updated_at c.settings.site_title)
]

-- `titleLength`, `titleInvalid`, `hasChanges` and `hasVisibleCustomLogo`.
unfoldable pub title_length : Form → ℕ
title_length f = code_points (trim f.site_title)

unfoldable pub title_invalid : Form → Bool
title_invalid f = is_empty (trim f.site_title) || ltb 100 (title_length f)

unfoldable pub has_changes : SiteSettings → Form → Bool
has_changes settings f =
    not (text_eq (trim f.site_title) settings.site_title) || (is_some f.logo_file || f.remove_logo)

unfoldable pub has_visible_custom_logo : SiteSettings → Form → Bool
has_visible_custom_logo settings f = settings.has_logo && not f.remove_logo

-- The picture: the chosen file, the stand-in, or the logo of the site.
pub data Picture : Type 0 where
  chosen : File → Picture
  stand_in site_logo : Picture

unfoldable pub picture : Form → Picture
picture f = elim f.preview [
  | some file ↦ chosen file
  | none ↦ if f.remove_logo then stand_in else site_logo
]

-- The labels of the buttons below it; the second and the third may be missing.
unfoldable pub choose_label : SiteSettings → Form → Text
choose_label settings f =
    if has_visible_custom_logo settings f || is_some f.logo_file then text "更换图片" else text "选择图片"

unfoldable pub remove_label : SiteSettings → Form → Option Text
remove_label settings f =
    if is_some f.logo_file
    then some (text "取消选择")
    else if has_visible_custom_logo settings f
    then some (text "移除 Logo")
    else none

unfoldable pub undo_label : Form → Option Text
undo_label f = if f.remove_logo then some (text "撤销移除") else none

unfoldable pub length_text : Form → Text
length_text f = decimal (title_length f) ++ text "/100"

-- The button that saves: whether it is disabled, and its label.
unfoldable pub save_button : SiteSettings → Form → Bool × Text
save_button settings f = (
  f.saving || (title_invalid f || not (has_changes settings f)),
  if f.saving then text "保存中…" else text "保存设置",
)

-- A click on the button that saves makes a request: the form's own checks stop it only when the button
-- is disabled.
pub save_button-handle_submit :
    (settings : SiteSettings) (f : Form)
    → (save_button settings f).0 ≡ false
    → is_some (handle_submit f).1 ≡ true
unfolding save_button title_invalid title_length has_changes handle_submit
save_button-handle_submit settings f h = elim (Bool-cases (is_empty (trim f.site_title))) [
  | inl e ↦ absurd (ground arith)
  | inr e ↦ elim (Bool-cases (ltb 100 (code_points (trim f.site_title)))) [
    | inl l ↦ absurd (ground arith)
    | inr l ↦ rw (e, l, handle_submit) refl
  ]
]

-- After a save, with a title that the server returns trimmed, the button is disabled until the next
-- change.
pub save_button-submit_settled :
    (settings : SiteSettings) (f : Form) (c : Context)
    → trim settings.site_title ≡ settings.site_title
    → (save_button
        (submit_settled (resolved settings) f c).1.settings
        (submit_settled (resolved settings) f c).0).0
      ≡ true
unfolding save_button has_changes submit_settled replace_settings
save_button-submit_settled settings f c h =
    rw ((text_eq_iff (trim settings.site_title) settings.site_title).1 h) (or_true _)
  where
    or_true : (b : Bool) → (b || true) ≡ true
    or_true true = refl
    or_true false = refl
