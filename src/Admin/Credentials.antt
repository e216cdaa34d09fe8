-- ===== src/Admin/Credentials.antt =====
-- The list of credentials, web/src/pages/admin/credentials.tsx: its filter and pages, the requests
-- that it makes, and the selection. Answers come in any order.
pub mod Numbers
pub mod Laws
pub mod Selection
pub mod Clicks
pub mod Settling
pub mod Detail
pub mod Bar
pub mod Upload
use cdk_system.Base.{
  ℕ, ◌+◌, ◌-◌, Bool, true, false, ◌&&◌, not, Option, none, some, List, [], ◌∷◌, ◌++◌, map, Text,
  length, ltb, ◌==◌, is_empty, any, if◌then◌else◌,
}
use cdk_system.Api.{Settled, resolved, rejected}
use cdk_system.Api.Endpoints.{CredentialState}
use cdk_system.Admin.Pagination.{Paged}
use cdk_system.Admin.Credentials.Numbers.{has, remove}

-- `Credential`.
pub record Credential : Type 0 where
  pub id : ℕ
  pub email : Text
  pub plan_type : Text
  pub expired : Option Text
  pub used : Bool
  pub redemption_id : Option ℕ
  pub created_at : Text
  pub updated_at : Text

-- The arguments of `api.credentials`.
pub record Query : Type 0 where
  pub state : CredentialState
  pub page : ℕ
  pub page_size : ℕ

pub record Answer : Type 0 where
  pub items : List Credential
  pub paged : Paged

-- The state of the list, with the requests that have no answer yet. `selected` is the set in the
-- order of insertion; `items` is none while a request runs.
pub record Listing : Type 0 where
  pub query : Query
  pub items : Option (List Credential)
  pub paged : Paged
  pub selected : List ℕ
  pub pending : List Query

unfoldable pub page_size_options : List ℕ
page_size_options = 20 ∷ 50 ∷ 100 ∷ 200 ∷ 500 ∷ []

-- `load`, for the query that it closes over.
unfoldable pub load : Query → Listing → Listing
load q l = record l { items = none; pending = l.pending ++ (q ∷ []) }

-- The page as it is first shown: its effect loads.
unfoldable pub initial_listing : Listing
initial_listing =
    load (record { state = CredentialState.all; page = 1; page_size = 50 })
      (record {
        query = record { state = CredentialState.all; page = 1; page_size = 50 };
        items = none;
        paged = record { total = 0; page = 1; pages = 1 };
        selected = [];
        pending = [];
      })

abbrev state_code : CredentialState → ℕ
state_code CredentialState.all = 0
state_code CredentialState.used = 1
state_code CredentialState.unused = 2

unfoldable pub same_query : Query → Query → Bool
same_query p q =
    (state_code p.state == state_code q.state)
    && ((p.page == q.page) && (p.page_size == q.page_size))

-- An update of the filter or the page; the effect loads again if it changes anything.
unfoldable pub set_query : Query → Listing → Listing
set_query q l = if same_query q l.query then l else load q (record l { query = q })

unfoldable pub change_state : CredentialState → Listing → Listing
change_state s l = set_query (record l.query { state = s; page = 1 }) l

unfoldable pub change_page : ℕ → Listing → Listing
change_page n l = set_query (record l.query { page = n }) l

-- Sizes that are no option are ignored.
unfoldable pub change_page_size : ℕ → Listing → Listing
change_page_size n l =
    if any (λ option. n == option) page_size_options
    then set_query (record l.query { page_size = n; page = 1 }) l
    else l

-- The answer to the request for `q`. A page behind the last one leads there instead.
unfoldable pub settle : Query → Settled Answer → Listing → Listing
settle q (rejected e) l = l
settle q (resolved answer) l =
    if ltb 0 answer.paged.total && ltb answer.paged.pages q.page
    then change_page answer.paged.pages l
    else record l { items = some answer.items; paged = answer.paged; selected = [] }

unfoldable pub toggle_select : ℕ → Listing → Listing
toggle_select id l = record l {
  selected = if has id l.selected then remove id l.selected else l.selected ++ (id ∷ []);
}

abbrev pub ids : List Credential → List ℕ
ids = map (λ c. c.id)

unfoldable pub toggle_select_all : Listing → Listing
toggle_select_all l = elim l.items [
  | none ↦ l
  | some items ↦
      if (length l.selected == length items) && ltb 0 (length items)
      then record l { selected = [] }
      else record l { selected = Numbers.distinct (ids items) }
]

-- `allSelected`.
unfoldable pub all_selected : Listing → Bool
all_selected l = elim l.items [
  | none ↦ false
  | some items ↦ ltb 0 (length items) && (length l.selected == length items)
]

-- The ids that `handleBatchDelete` sends, none if it returns at once; and the reload after a
-- deletion that succeeded, for the query of the page at the time when the deletion was asked for.
unfoldable pub batch_delete : Listing → Option (List ℕ)
batch_delete l = if is_empty l.selected then none else some l.selected

unfoldable pub deleted : Query → Settled Text → Listing → Listing
deleted q (resolved message) l = load q l
deleted q (rejected e) l = l
