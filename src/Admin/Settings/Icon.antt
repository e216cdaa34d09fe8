-- ===== src/Admin/Settings/Icon.antt =====
-- The icon of the document, which the effect in web/src/components/site-settings-provider.tsx sets.
use cdk_system.Base.{
  ℕ, true, Bool-cases, inl, inr, ◌≡◌, refl, ◌∙◌, ap, sym, subst, false, Option, none, some, List,
  [], ◌∷◌, ◌++◌, Text, text, text_or, is_empty,
}
use cdk_system.Admin.Settings.{SiteSettings, favicon_href}

-- The link element: its attributes `href` and `data-default-href`, none where it has none.
pub record Icon : Type 0 where
  pub href : Option Text
  pub default_href : Option Text

abbrev pub link_of : Option Icon → Icon
link_of none = record { href = none; default_href = none }
link_of (some icon) = icon

abbrev own_href : Option Text → Text
own_href none = text "data:,"
own_href (some href) = text_or href (text "data:,")

abbrev remembered : Option Text → Option Text → Text
remembered none href = own_href href
remembered (some []) href = own_href href
remembered (some (c ∷ s)) href = c ∷ s

-- The address of the icon with which the page was delivered.
unfoldable pub delivered_href : Option Icon → Text
delivered_href o = remembered (link_of o).default_href (link_of o).href

-- The second half of the effect, on the first icon of the document; none if it has no icon.
unfoldable pub set_icon : SiteSettings → Option Icon → Option Icon
set_icon settings o = some (record {
  href = some (favicon_href (delivered_href o) settings);
  default_href = some (delivered_href o);
})

-- The effect runs again for each change of the settings.
unfoldable pub set_icons : List SiteSettings → Option Icon → Option Icon
set_icons [] o = o
set_icons (settings ∷ rest) o = set_icons rest (set_icon settings o)

is_empty-own_href : (href : Option Text) → is_empty (own_href href) ≡ false
unfolding text
is_empty-own_href none = refl
is_empty-own_href (some []) = refl
is_empty-own_href (some (c ∷ s)) = refl

is_empty-remembered : (d href : Option Text) → is_empty (remembered d href) ≡ false
is_empty-remembered none href = is_empty-own_href href
is_empty-remembered (some []) href = is_empty-own_href href
is_empty-remembered (some (c ∷ s)) href = refl

remembered_of_full :
    (t : Text) (href : Option Text) → is_empty t ≡ false → remembered (some t) href ≡ t
remembered_of_full [] href h = cc
remembered_of_full (c ∷ t) href h = refl

delivered_href-set_icon :
    (settings : SiteSettings) (o : Option Icon)
    → delivered_href (set_icon settings o) ≡ delivered_href o
unfolding delivered_href set_icon
delivered_href-set_icon settings o =
    remembered_of_full (remembered (link_of o).default_href (link_of o).href) _
      (is_empty-remembered (link_of o).default_href (link_of o).href)

set_icons_of_last :
    (before : List SiteSettings) (settings : SiteSettings) (o : Option Icon)
    → (link_of (set_icons (before ++ (settings ∷ [])) o)).href
      ≡ some (favicon_href (delivered_href o) settings)
unfolding set_icons set_icon
set_icons_of_last [] settings o = refl
set_icons_of_last (s ∷ before) settings o =
    set_icons_of_last before settings (set_icon s o)
    ∙ ap (λ d. some (favicon_href d settings)) (delivered_href-set_icon s o)

-- The address of the icon of a page as it is delivered: none has been remembered yet, and without
-- an icon, or with one that has no address, it is the empty `data:,`.
pub data IsDelivered : Option Icon → Text → Type 0 where
  no_icon : IsDelivered none (text "data:,")
  no_address : IsDelivered (some (record { href = none; default_href = none })) (text "data:,")
  empty_address :
      IsDelivered (some (record { href = some []; default_href = none })) (text "data:,")
  address :
      (c : ℕ) (s : Text)
      → IsDelivered (some (record { href = some (c ∷ s); default_href = none })) (c ∷ s)

-- The address that these settings ask for: their logo, if they have one and it has an address, and
-- else the address that the page was delivered with.
pub data Shows (settings : SiteSettings) (delivered : Text) : Text → Type 0 where
  logo :
      settings.has_logo ≡ true
      → is_empty settings.logo_url ≡ false
      → Shows settings delivered settings.logo_url
  no_logo : settings.has_logo ≡ false → Shows settings delivered delivered
  no_logo_address : settings.logo_url ≡ [] → Shows settings delivered delivered

delivered_href_of : {o : Option Icon} {d : Text} → IsDelivered o d → delivered_href o ≡ d
unfolding delivered_href text
delivered_href_of no_icon = refl
delivered_href_of no_address = refl
delivered_href_of empty_address = refl
delivered_href_of (address c s) = refl

nil_of_empty : (t : Text) → is_empty t ≡ true → t ≡ []
nil_of_empty [] h = refl
nil_of_empty (c ∷ t) h = cc

favicon_href-Shows :
    (d : Text) (settings : SiteSettings) → Shows settings d (favicon_href d settings)
favicon_href-Shows d settings = elim (Bool-cases settings.has_logo) [
  | inr without ↦
      let e : favicon_href d settings ≡ d = unfold favicon_href in rw without refl in
      subst (Shows settings d) (sym e) (no_logo without)
  | inl has ↦ elim (Bool-cases (is_empty settings.logo_url)) [
    | inl unnamed ↦
        let e : favicon_href d settings ≡ d = unfold favicon_href in rw (has, unnamed) refl in
        subst (Shows settings d) (sym e) (no_logo_address (nil_of_empty settings.logo_url unnamed))
    | inr named ↦
        let e : favicon_href d settings ≡ settings.logo_url =
          unfold favicon_href in rw (has, named) refl in
        subst (Shows settings d) (sym e) (logo has named)
  ]
]

-- Whatever settings a page has had since it was delivered, its icon shows the logo of its present
-- settings, if they have one with an address, and else the address that the delivered icon had,
-- which is `data:,` if there was no icon or it had no address.
pub set_icons-last :
    (before : List SiteSettings) (settings : SiteSettings) (o : Option Icon) (d : Text)
    → IsDelivered o d
    → (shown : Text) × ((link_of (set_icons (before ++ (settings ∷ [])) o)).href ≡ some shown)
      × Shows settings d shown
set_icons-last before settings o d h = (
  favicon_href d settings,
  set_icons_of_last before settings o
      ∙ ap (λ t. some (favicon_href t settings)) (delivered_href_of h),
  favicon_href-Shows d settings,
)
