-- ===== src/Admin/Pagination.antt =====
-- The page bars: `compactPageItems` and the row range of web/src/pages/admin/credentials.tsx, and
-- web/src/components/data-pagination.tsx. Page numbers and counts come from the server and are
-- natural numbers.
pub mod Laws
pub mod Rows
use cdk_system.Base.{
  ℕ, zero, suc, ◌+◌, ◌-◌, ◌*◌, min, Bool, true, false, Option, none, some, List, [], ◌∷◌, leb, ◌==◌,
  if◌then◌else◌,
}

pub data PageItem : Type 0 where
  page : ℕ → PageItem
  start_ellipsis end_ellipsis : PageItem

-- `n` page numbers from `from` on.
unfoldable pub pages_from : ℕ → ℕ → List PageItem
pages_from from zero = []
pages_from from (suc n) = page from ∷ pages_from (suc from) n

unfoldable pub compact_page_items : ℕ → ℕ → List PageItem
compact_page_items current pages =
    if pages == 0
    then []
    else if leb pages 5
    then pages_from 1 pages
    else if leb current 3
    then page 1 ∷ page 2 ∷ page 3 ∷ end_ellipsis ∷ page pages ∷ []
    else if leb (pages - 2) current
    then page 1 ∷ start_ellipsis ∷ page (pages - 2) ∷ page (pages - 1) ∷ page pages ∷ []
    else page 1 ∷ start_ellipsis ∷ page current ∷ end_ellipsis ∷ page pages ∷ []

-- The answer to a request for a page.
pub record Paged : Type 0 where
  pub total : ℕ
  pub page : ℕ
  pub pages : ℕ

-- `rangeStart` and `rangeEnd`.
unfoldable pub range_start : ℕ → Paged → ℕ
range_start page_size p = if p.total == 0 then 0 else (p.page - 1) * page_size + 1

unfoldable pub range_end : ℕ → Paged → ℕ
range_end page_size p = min (p.page * page_size) p.total

-- `DataPagination`: nothing for an empty table; else the pages to which its two buttons lead, `none`
-- for a button that is disabled.
pub record Bar : Type 0 where
  pub previous : Option ℕ
  pub following : Option ℕ

unfoldable pub data_pagination : Paged → Option Bar
data_pagination p =
    if p.total == 0
    then none
    else some (record {
      previous = if leb p.page 1 then none else some (p.page - 1);
      following = if leb p.pages p.page then none else some (p.page + 1);
    })
