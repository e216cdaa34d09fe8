-- ===== src/Shell.antt =====
-- What surrounds the pages: the table of routes in web/src/App.tsx, the logo of
-- web/src/components/site-settings-provider.tsx, the switch of the theme, the question before an
-- action, the copying of texts (web/src/lib/clipboard.ts) and the test for narrow windows
-- (web/src/hooks/use-mobile.ts).
mod Tests
use cdk_system.Base.{
  ℕ, Bool, true, false, ◌&&◌, not, Option, none, some, List, [], ◌∷◌, Text, text, text_eq, text_or,
  is_empty, is_given, ltb, if◌then◌else◌,
}
use cdk_system.Api.{Settled, resolved, rejected}
use cdk_system.Admin.Settings.{SiteSettings}

-- The elements that the routes lead to.
pub data Element : Type 0 where
  redeem_page login_page admin_layout dashboard_page batches_page batch_new_page : Element
  batch_detail_page logs_page faq_page credentials_page site_settings_page : Element
  navigate_home : Element

-- A route inside a layout; the one without a path is shown first.
pub data InnerRoute : Type 0 where
  index : Element → InnerRoute
  inner : Text → Element → InnerRoute

pub data Route : Type 0 where
  route : Text → Element → Route
  layout : Text → Element → List InnerRoute → Route

unfoldable pub admin_routes : List InnerRoute
admin_routes =
    index dashboard_page
    ∷ inner (text "batches") batches_page
    ∷ inner (text "batches/new") batch_new_page
    ∷ inner (text "batches/:id") batch_detail_page
    ∷ inner (text "logs") logs_page
    ∷ inner (text "faq") faq_page
    ∷ inner (text "credentials") credentials_page
    ∷ inner (text "settings") site_settings_page
    ∷ []

unfoldable pub app_routes : List Route
app_routes =
    route (text "/") redeem_page
    ∷ route (text "/admin/login") login_page
    ∷ layout (text "/admin") admin_layout admin_routes
    ∷ route (text "*") navigate_home
    ∷ []

-- `SiteLogo`: the address of the image, none for the icon that stands in for it. `failed_url` is the
-- address whose image did not load.
unfoldable pub logo_image : SiteSettings → Option Text → Option Text
logo_image settings failed_url =
    if settings.has_logo
      && (not (is_empty settings.logo_url)
          && not (elim failed_url [ none ↦ false | some url ↦ text_eq url settings.logo_url ]))
    then some settings.logo_url
    else none

unfoldable pub logo_failed : SiteSettings → Option Text → Option Text
logo_failed settings failed_url = some settings.logo_url

-- `ThemeToggle`: any theme but the light one counts as dark.
unfoldable pub is_dark : Option Text → Bool
is_dark none = true
is_dark (some theme) = not (text_eq theme (text "light"))

unfoldable pub toggled_theme : Option Text → Text
toggled_theme theme = if is_dark theme then text "light" else text "dark"

unfoldable pub toggle_title : Option Text → Text
toggle_title theme = if is_dark theme then text "切换到亮色主题" else text "切换到暗色主题"

-- `useIsMobile`: the width that its effect has read, and the result before and after.
abbrev pub mobile_breakpoint : ℕ
mobile_breakpoint = 768

unfoldable pub on_change : ℕ → Option Bool
on_change inner_width = some (ltb inner_width mobile_breakpoint)

unfoldable pub is_mobile : Option Bool → Bool
is_mobile none = false
is_mobile (some b) = b

-- `copyText`: the way that it copies, and the notice for its outcome.
pub data CopyWay : Type 0 where
  clipboard textarea : CopyWay

unfoldable pub copy_way : Bool → Option Bool → CopyWay
copy_way has_clipboard is_secure =
    if has_clipboard && (elim is_secure [ none ↦ true | some secure ↦ secure ])
    then clipboard
    else textarea

pub data Toast : Type 0 where
  success failure : Text → Toast

unfoldable pub copied : Text → Settled Text → Toast
copied tip (resolved done) = success tip
copied tip (rejected e) = failure (text "复制失败，请手动选择复制")

-- `ConfirmDialog`: what it shows of its properties.
pub record Question : Type 0 where
  pub title : Text
  pub description : Option Text
  pub confirm_text : Text
  pub destructive : Bool

unfoldable pub confirm_dialog : Text → Option Text → Option Text → Option Bool → Question
confirm_dialog title description confirm_text destructive = record {
  title = title;
  description = if is_given description then description else none;
  confirm_text = elim confirm_text [ none ↦ text "确认" | some s ↦ s ];
  destructive = elim destructive [ none ↦ false | some b ↦ b ];
}
