-- ===== src/Admin/Credentials/Bar.antt =====
-- The head of the list of credentials and the bar below it, web/src/pages/admin/credentials.tsx: what
-- they show, and where their buttons lead.
use cdk_system.Base.{
  ℕ, ◌+◌, ◌-◌, Bool, ◌||◌, not, Option, none, some, List, [], ◌∷◌, ◌++◌, Text, text, length,
  decimal, map, leb, ltb, ◌==◌, is_some, is_given, if◌then◌else◌,
}
use cdk_system.Api.Endpoints.{CredentialState}
use cdk_system.Admin.Dashboard.{Card, default, primary, destructive}
use cdk_system.Admin.Pagination.{
  PageItem, page, start_ellipsis, end_ellipsis, compact_page_items, range_start, range_end,
}
use cdk_system.Admin.Credentials.{Listing, page_size_options}
use cdk_system.Admin.Credentials.Upload.{Upload}
use cdk_system.Admin.Credentials.Detail.{Figures}

-- `STATE_TABS`.
unfoldable pub state_tabs : List (CredentialState × Text)
state_tabs =
    (CredentialState.all, text "全部")
    ∷ (CredentialState.unused, text "未使用")
    ∷ (CredentialState.used, text "已使用")
    ∷ []

-- Whether the upload button is disabled, and the notice about plans that could not be loaded.
unfoldable pub upload_disabled : Upload → Bool
upload_disabled u = u.uploading || (u.plans_loading || is_given u.plans_error)

unfoldable pub plans_notice : Upload → Option Text
plans_notice u = if is_given u.plans_error then u.plans_error else none

-- The line inside the card on which files are dropped.
unfoldable pub drop_hint : Upload → Text
drop_hint u =
    if u.plans_loading
    then text "正在加载套餐…"
    else if u.uploading
    then text "正在导入凭证…"
    else text "点击或拖拽 JSON 文件到此处上传"

unfoldable pub figure_cards : Figures → List Card
figure_cards f =
    record { title = text "凭证总数"; value = f.total; tone = default; hint = none }
    ∷ record { title = text "未使用"; value = f.unused; tone = primary; hint = none }
    ∷ record { title = text "已使用"; value = f.used; tone = destructive; hint = none }
    ∷ []

-- The button that deletes the selection and the question behind it; none without a selection.
unfoldable pub batch_delete_button : Listing → Option (Text × Text)
batch_delete_button l =
    if ltb 0 (length l.selected)
    then some (
      text "批量删除 (" ++ (decimal (length l.selected) ++ text ")"),
      text "将删除 " ++ (decimal (length l.selected) ++ text " 条凭证，此操作不可恢复。"),
    )
    else none

-- `pageControlsDisabled`.
unfoldable pub page_controls_disabled : Listing → Bool
page_controls_disabled l = not (is_some l.items)

-- Where a click leads: nowhere, to a page, or to a page below 0.
pub data Click : Type 0 where
  disabled below_zero : Click
  to_page : ℕ → Click

-- The buttons count from the page of the query, but the page of the last answer disables them.
unfoldable pub previous_click : Listing → Click
previous_click l =
    if page_controls_disabled l || leb l.paged.page 1
    then disabled
    else if l.query.page == 0
    then below_zero
    else to_page (l.query.page - 1)

unfoldable pub next_click : Listing → Click
next_click l =
    if page_controls_disabled l || leb l.paged.pages l.paged.page
    then disabled
    else to_page (l.query.page + 1)

-- An item of the bar: a gap, or a page with whether it is the current one and where it leads.
pub data BarItem : Type 0 where
  gap : BarItem
  number : ℕ → Bool → Click → BarItem

unfoldable pub bar_item : Listing → PageItem → BarItem
bar_item l (page n) =
    number n (n == l.paged.page) (if page_controls_disabled l then disabled else to_page n)
bar_item l start_ellipsis = gap
bar_item l end_ellipsis = gap

-- The bar; none for an empty table.
unfoldable pub page_bar : Listing → Option (Click × List BarItem × Click)
page_bar l =
    if ltb 0 l.paged.total
    then some (
      previous_click l,
      map (bar_item l) (compact_page_items l.paged.page l.paged.pages),
      next_click l,
    )
    else none

-- The range of rows, and the choice of a page size.
unfoldable pub range_text : Listing → Text
range_text l =
    text "显示 "
    ++ (decimal (range_start l.query.page_size l.paged)
        ++ (text "-"
            ++ (decimal (range_end l.query.page_size l.paged)
                ++ (text " / 共 " ++ (decimal l.paged.total ++ text " 条")))))

unfoldable pub page_size_choices : List (Text × Text)
page_size_choices = map (λ n. (decimal n, decimal n ++ text " 条")) page_size_options
