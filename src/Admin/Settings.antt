-- ===== src/Admin/Settings.antt =====
-- The settings of the site: the context of web/src/components/site-settings-provider.tsx, and the form
-- of web/src/pages/admin/site-settings.tsx. The decoding of an image belongs to the browser: its
-- result is an argument.
pub mod Steps
pub mod Laws
pub mod Shown
pub mod Icon
pub mod Checks
use cdk_system.Base.{
  ℕ, suc, ◌+◌, Bool, true, false, ◌&&◌, ◌||◌, not, Option, none, some, Text, text, text_eq, text_or,
  trim, code_points, ltb, ◌==◌, is_some, is_empty, starts_with, ◌++◌, if◌then◌else◌,
}
use cdk_system.Api.{File, Settled, resolved, rejected, Failure, error_message, api_message}
use cdk_system.Api.Endpoints.{UpdateSiteSettingsInput}

-- `SiteSettings`.
pub record SiteSettings : Type 0 where
  pub site_title : Text
  pub has_logo : Bool
  pub logo_url : Text
  pub updated_at : Text

unfoldable pub default_site_settings : SiteSettings
default_site_settings = record {
  site_title = text "CDK 兑换中心";
  has_logo = false;
  logo_url = text "";
  updated_at = text "";
}

pub data SiteSettingsStatus : Type 0 where
  loading ready failed : SiteSettingsStatus

-- The state of `SiteSettingsProvider`.
pub record Context : Type 0 where
  pub settings : SiteSettings
  pub status : SiteSettingsStatus
  pub error : Option Text

unfoldable pub initial_context : Context
initial_context = record {
  settings = default_site_settings;
  status = SiteSettingsStatus.loading;
  error = none;
}

-- `refresh`, up to its request and from the answer on.
unfoldable pub refresh : Context → Context
refresh c = record c { status = SiteSettingsStatus.loading; error = none }

unfoldable pub refreshed : Settled SiteSettings → Context → Context
refreshed (resolved settings) c = record c {
  settings = settings;
  status = SiteSettingsStatus.ready;
}
refreshed (rejected e) c = record c {
  error = some (error_message e);
  status = SiteSettingsStatus.failed;
}

unfoldable pub replace_settings : SiteSettings → Context → Context
replace_settings settings c = record {
  settings = settings;
  status = SiteSettingsStatus.ready;
  error = none;
}

-- The title of the document, for the path of the page.
unfoldable pub document_title : Text → SiteSettings → Text
document_title pathname settings =
    let title = text_or (trim settings.site_title) default_site_settings.site_title in
    if starts_with pathname (text "/admin") then title ++ text " - 管理后台" else title

-- The source of the icon, for the one of the page as it was delivered.
unfoldable pub favicon_href : Text → SiteSettings → Text
favicon_href default_href settings =
    if settings.has_logo && not (is_empty settings.logo_url)
    then settings.logo_url
    else default_href

abbrev pub max_logo_bytes : ℕ
max_logo_bytes = 2097152

abbrev pub max_logo_dimension : ℕ
max_logo_dimension = 2048

unfoldable pub is_allowed_logo_type : Text → Bool
is_allowed_logo_type mime = text_eq mime (text "image/png") || text_eq mime (text "image/jpeg")

pub record Bitmap : Type 0 where
  pub width : ℕ
  pub height : ℕ

abbrev bitmap_error : Option Bitmap → Option Text
bitmap_error none = some (text "图片无法读取，请重新选择有效的 PNG 或 JPEG 文件")
bitmap_error (some b) =
    if ltb max_logo_dimension b.width || ltb max_logo_dimension b.height
    then some (text "图片宽高不能超过 2048 × 2048 像素")
    else none

-- `validateLogo`; the bitmap is none if the file cannot be decoded.
unfoldable pub validate_logo : File → Option Bitmap → Option Text
validate_logo file bitmap =
    if not (is_allowed_logo_type file.mime)
    then some (text "请选择 PNG 或 JPEG 图片")
    else if ltb max_logo_bytes file.size
    then some (text "图片不能超过 2 MiB")
    else bitmap_error bitmap

-- The state of `SiteSettingsForm`; `preview` is the file whose URL is shown.
pub record Form : Type 0 where
  pub site_title : Text
  pub logo_file : Option File
  pub preview : Option File
  pub remove_logo : Bool
  pub saving : Bool
  pub form_error : Option Text
  pub token : ℕ

unfoldable pub initial_form : SiteSettings → Form
initial_form settings = record {
  site_title = settings.site_title;
  logo_file = none;
  preview = none;
  remove_logo = false;
  saving = false;
  form_error = none;
  token = 0;
}

unfoldable pub change_title : Text → Form → Form
change_title title f = record f { site_title = title }

-- `handleFileChange` up to the check of the file, which keeps the token that the form then has.
unfoldable pub choose_file : Option File → Form → Form
choose_file none f = record f { token = suc f.token }
choose_file (some file) f = record f { token = suc f.token; form_error = none }

-- `handleFileChange` behind the check: `token` is the one that it kept, `error` the check's result.
unfoldable pub file_checked : ℕ → File → Option Text → Form → Form
file_checked token file (some error) f =
    if token == f.token then record f { form_error = some error } else f
file_checked token file none f =
    if token == f.token
    then record f { logo_file = some file; preview = some file; remove_logo = false }
    else f

abbrev drop_logo : Option File → Form → Form
drop_logo (some file) f = record f { logo_file = none; preview = none }
drop_logo none f = record f { remove_logo = true }

unfoldable pub handle_remove_logo : Form → Form
handle_remove_logo f = drop_logo f.logo_file (record f { token = suc f.token; form_error = none })

unfoldable pub undo_remove : Form → Form
undo_remove f = record f { remove_logo = false }

-- `handleSubmit` up to its request.
unfoldable pub handle_submit : Form → Form × Option UpdateSiteSettingsInput
handle_submit f =
    if is_empty (trim f.site_title)
    then (record f { form_error = some (text "网站标题不能为空") }, none)
    else if ltb 100 (code_points (trim f.site_title))
    then (record f { form_error = some (text "网站标题不能超过 100 个字符") }, none)
    else (
      record f { token = suc f.token; saving = true; form_error = none },
      some (record {
        site_title = trim f.site_title;
        logo = f.logo_file;
        remove_logo = f.remove_logo;
      }),
    )

-- `handleSubmit` from the answer on.
unfoldable pub submit_settled : Settled SiteSettings → Form → Context → Form × Context
submit_settled (resolved settings) f c = (
  record f {
    site_title = settings.site_title;
    logo_file = none;
    preview = none;
    remove_logo = false;
    saving = false;
  },
  replace_settings settings c,
)
submit_settled (rejected e) f c =
    (record f { form_error = some (api_message (text "保存失败，请稍后重试") e); saving = false }, c)
