-- ===== src/Admin/Tests/Settling.antt =====
-- A list of credentials whose page lies behind the last one, and a server with one page.
use cdk_system.Base.{◌≡◌, refl, true, none, List, [], ◌∷◌, length, ◌*◌, arith}
use cdk_system.Api.Endpoints.{CredentialState}
use cdk_system.Admin.Credentials.{
  Query, Answer, Listing, initial_listing, change_page, load, set_query, same_query, settle,
}
use cdk_system.Admin.Credentials.Settling.Laws.{deliver-IsSettled}
use cdk_system.Admin.Credentials.Settling.Leads.{IsPaging, IsInsideBar, deliver-IsInsideBar}
use cdk_system.Admin.Credentials.Bar.{
  Click, disabled, to_page, BarItem, number, page_bar, page_controls_disabled, bar_item,
  previous_click, next_click,
}
use cdk_system.Admin.Pagination.{compact_page_items, pages_from}
use cdk_system.Admin.Credentials.Settling.{IsServer, IsSettled, deliver, deliver_first, only, later}

abbrev one_page : Query → Answer
one_page q = record { items = []; paged = record { total = 3; page = q.page; pages = 1 } }

one_page-IsServer : IsServer one_page
one_page-IsServer = record { same_pages = λ p q h. refl }

-- The user has asked for page nine before the first page has come.
abbrev waiting : Listing
waiting = record {
  query = record { state = CredentialState.all; page = 9; page_size = 50 };
  items = none;
  paged = record { total = 0; page = 1; pages = 1 };
  selected = [];
  pending =
      record { state = CredentialState.all; page = 1; page_size = 50 }
      ∷ record { state = CredentialState.all; page = 9; page_size = 50 }
      ∷ [];
}

waiting-change_page : change_page 9 initial_listing ≡ waiting
unfolding change_page initial_listing load set_query same_query
waiting-change_page = refl

deliver-IsSettled_example :
    IsSettled one_page (deliver one_page (3 * length waiting.pending) waiting)
deliver-IsSettled_example = deliver-IsSettled one_page one_page-IsServer waiting (later only)

-- It comes to page one.
deliver-waiting : (deliver one_page 6 waiting).query.page ≡ 1
unfolding deliver deliver_first settle change_page set_query same_query load
deliver-waiting = refl

one_page-IsPaging : IsPaging one_page
one_page-IsPaging = record {
  pages_only = one_page-IsServer;
  echoes = λ q h. refl;
  some_page = λ q h. omega arith;
}

abbrev one_page_bar : Click × List BarItem × Click
one_page_bar = (disabled, number 1 true (to_page 1) ∷ [], disabled)

deliver-IsInsideBar_example :
    IsInsideBar (deliver one_page (3 * length waiting.pending) waiting) one_page_bar
unfolding page_bar page_controls_disabled bar_item previous_click next_click compact_page_items
    pages_from deliver deliver_first settle change_page set_query same_query load
deliver-IsInsideBar_example =
    deliver-IsInsideBar one_page one_page-IsPaging waiting one_page_bar (later only) (omega arith)
      refl
