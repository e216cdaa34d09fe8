-- ===== src/Shell/Tests.antt =====
-- The logo, the theme and the notices on small inputs.
use cdk_system.Base.{
  Bool, ◌≡◌, refl, true, false, none, some, [], Text, all, any, ◌++◌, text, text_eq,
}
use cdk_system.Admin.Settings.{SiteSettings}
use cdk_system.Admin.Session.Menu.{nav_items}
use cdk_system.Shell.{
  InnerRoute, index, inner, admin_routes, logo_image, logo_failed, is_dark, toggled_theme, copy_way,
  textarea, on_change, is_mobile,
}

abbrev with_logo : SiteSettings
with_logo = record {
  site_title = text "Shop";
  has_logo = true;
  logo_url = text "/a.png";
  updated_at = [];
}

logo_image-logo_failed : logo_image with_logo (logo_failed with_logo none) ≡ none
unfolding logo_image logo_failed text text_eq
logo_image-logo_failed = refl

logo_image-other_failed : logo_image with_logo (some (text "/b.png")) ≡ some (text "/a.png")
unfolding logo_image text text_eq
logo_image-other_failed = refl

is_dark-toggled_theme : is_dark (some (toggled_theme none)) ≡ false
unfolding is_dark text_eq toggled_theme text
is_dark-toggled_theme = refl

copy_way-insecure : copy_way true (some false) ≡ textarea
unfolding copy_way
copy_way-insecure = refl

is_mobile-on_change : is_mobile (on_change 767) ≡ true
unfolding is_mobile on_change
is_mobile-on_change = refl

-- Every entry of the menu has a route of its own below the layout.
abbrev leads : Text → InnerRoute → Bool
leads url (index element) = text_eq url (text "/admin")
leads url (inner path element) = text_eq url (text "/admin/" ++ path)

nav_items-admin_routes : all (λ item. any (leads item.url) admin_routes) nav_items ≡ true
unfolding all any admin_routes nav_items text text_eq
nav_items-admin_routes = refl
