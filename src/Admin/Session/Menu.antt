-- ===== src/Admin/Session/Menu.antt =====
-- The menu of the administration in web/src/layouts/admin-layout.tsx, and the title above the page.
use cdk_system.Base.{
  ◌≡◌, refl, sym, subst, inl, inr, Bool, true, false, ◌||◌, ◌&&◌, List, [], ◌∷◌, ◌++◌, Text, text,
  text_eq, text_eq_iff, starts_with, drop, length, keep, any, if◌then◌else◌, Bool-cases,
  starts_with-append, starts_with-prefix,
}
use cdk_system.Admin.Session.{current_title, digit_first}

-- An entry of `NAV_ITEMS` without its icon; `exact` is `end`.
pub record NavItem : Type 0 where
  pub title : Text
  pub url : Text
  pub exact : Bool

unfoldable pub nav_items : List NavItem
nav_items =
    record { title = text "仪表盘"; url = text "/admin"; exact = true }
    ∷ record { title = text "批次管理"; url = text "/admin/batches"; exact = false }
    ∷ record { title = text "凭证管理"; url = text "/admin/credentials"; exact = false }
    ∷ record { title = text "兑换记录"; url = text "/admin/logs"; exact = false }
    ∷ record { title = text "兑换须知"; url = text "/admin/faq"; exact = false }
    ∷ record { title = text "站点设置"; url = text "/admin/settings"; exact = false }
    ∷ []

-- Whether an entry is marked at a path.
unfoldable pub is_active : Text → NavItem → Bool
is_active pathname item =
    if item.exact
    then text_eq pathname item.url || text_eq pathname (item.url ++ text "/")
    else starts_with pathname item.url

abbrev pub active_items : Text → List NavItem
active_items pathname = keep (is_active pathname) nav_items

-- The titles of the pages below an entry: the list of batches leads to two more pages.
unfoldable pub titles_below : NavItem → List Text
titles_below item =
    item.title
    ∷ (if text_eq item.url (text "/admin/batches") then text "新建批次" ∷ text "批次详情" ∷ [] else [])

-- No entry is marked and the title is the general one, or one entry is, and the title is of one of
-- its pages.
pub Agrees : Text → List NavItem → Type 0
Agrees title [] = title ≡ text "管理后台"
Agrees title (item ∷ []) = any (text_eq title) (titles_below item) ≡ true
Agrees title (item ∷ next ∷ items) = ⊥

abbrev Agree : Text → Type 0
Agree pathname = Agrees (current_title pathname) (active_items pathname)

new_or_one :
    (b c : Bool)
    → any
        (text_eq (if b then text "新建批次" else if c then text "批次详情" else text "批次管理"))
        (text "批次管理" ∷ text "新建批次" ∷ text "批次详情" ∷ [])
      ≡ true
unfolding any text text_eq
new_or_one true c = refl
new_or_one false true = refl
new_or_one false false = refl

at_batches : (rest : Text) → Agree (text "/admin/batches" ++ rest)
unfolding Agrees nav_items is_active titles_below current_title text text_eq starts_with keep any
at_batches rest =
    new_or_one (starts_with rest (text "/new"))
      (starts_with rest (text "/") && digit_first (drop 1 rest))

at_credentials : (rest : Text) → Agree (text "/admin/credentials" ++ rest)
unfolding Agrees nav_items is_active titles_below current_title text text_eq starts_with keep any
at_credentials rest = refl

at_logs : (rest : Text) → Agree (text "/admin/logs" ++ rest)
unfolding Agrees nav_items is_active titles_below current_title text text_eq starts_with keep any
at_logs rest = refl

at_faq : (rest : Text) → Agree (text "/admin/faq" ++ rest)
unfolding Agrees nav_items is_active titles_below current_title text text_eq starts_with keep any
at_faq rest = refl

at_settings : (rest : Text) → Agree (text "/admin/settings" ++ rest)
unfolding Agrees nav_items is_active titles_below current_title text text_eq starts_with keep any
at_settings rest = refl

at_admin : Agree (text "/admin") × Agree (text "/admin/")
unfolding Agrees nav_items is_active titles_below current_title text text_eq starts_with keep any
at_admin = (refl, refl)

at : (url pathname : Text) → Agree url → text_eq pathname url ≡ true → Agree pathname
at url pathname here h = subst (λ p. Agree p) (sym ((text_eq_iff pathname url).0 h)) here

below :
    (url pathname : Text)
    → ((rest : Text) → Agree (url ++ rest))
    → starts_with pathname url ≡ true
    → Agree pathname
below url pathname each h =
    subst (λ p. Agree p) (starts_with-append pathname url h) (each (drop (length url) pathname))

-- No entry is marked.
elsewhere :
    (pathname : Text)
    → text_eq pathname (text "/admin") ≡ false
    → text_eq pathname (text "/admin/") ≡ false
    → starts_with pathname (text "/admin/batches") ≡ false
    → starts_with pathname (text "/admin/credentials") ≡ false
    → starts_with pathname (text "/admin/logs") ≡ false
    → starts_with pathname (text "/admin/faq") ≡ false
    → starts_with pathname (text "/admin/settings") ≡ false
    → Agree pathname
unfolding Agrees nav_items is_active current_title keep text_eq text
elsewhere p a b c d e f g =
    rw
      (
        a,
        b,
        c,
        d,
        e,
        f,
        g,
        starts_with-prefix p (text "/admin/batches") (text "/new") c,
        starts_with-prefix p (text "/admin/batches") (text "/") c,
      )
      refl

-- At every path the menu marks at most one entry, and it agrees with the title above the page: no
-- entry is marked exactly where the title is the general one, and a marked entry has the title, or it
-- is the list of batches and the title is that of a new batch or of one batch.
pub current_title-active_items :
    (pathname : Text) → Agrees (current_title pathname) (active_items pathname)
current_title-active_items p = elim (Bool-cases (text_eq p (text "/admin"))) [
  | inl h ↦ at (text "/admin") p at_admin.0 h
  | inr a ↦ elim (Bool-cases (text_eq p (text "/admin/"))) [
    | inl h ↦ at (text "/admin/") p at_admin.1 h
    | inr b ↦ elim (Bool-cases (starts_with p (text "/admin/batches"))) [
      | inl h ↦ below (text "/admin/batches") p at_batches h
      | inr c ↦ elim (Bool-cases (starts_with p (text "/admin/credentials"))) [
        | inl h ↦ below (text "/admin/credentials") p at_credentials h
        | inr d ↦ elim (Bool-cases (starts_with p (text "/admin/logs"))) [
          | inl h ↦ below (text "/admin/logs") p at_logs h
          | inr e ↦ elim (Bool-cases (starts_with p (text "/admin/faq"))) [
            | inl h ↦ below (text "/admin/faq") p at_faq h
            | inr f ↦ elim (Bool-cases (starts_with p (text "/admin/settings"))) [
              | inl h ↦ below (text "/admin/settings") p at_settings h
              | inr g ↦ elsewhere p a b c d e f g
            ]
          ]
        ]
      ]
    ]
  ]
]
