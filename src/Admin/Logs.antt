-- ===== src/Admin/Logs.antt =====
-- The records of redemptions, web/src/pages/admin/logs.tsx: the filters, and the requests that follow
-- from them. `Number` of a text is a parameter.
pub mod Laws
pub mod Shown
pub mod Answers
use cdk_system.Base.{
  ℕ, Bool, true, false, ◌&&◌, ◌||◌, Option, none, some, List, [], ◌∷◌, ◌++◌, Text, text, text_eq,
  trim, is_empty, ◌==◌, if◌then◌else◌,
}
use cdk_system.Api.{Settled, resolved, rejected}
use cdk_system.Api.Endpoints.{LogsParams}
use cdk_system.Admin.Pagination.{Paged}

-- `LogItem`.
pub record LogItem : Type 0 where
  pub id : ℕ
  pub created_at : Text
  pub batch_name : Option Text
  pub code : Text
  pub user_id : Text
  pub result : Text
  pub message : Text
  pub webhook_status : Text
  pub webhook_response : Text
  pub ip : Text

pub record Filters : Type 0 where
  pub batch_id : Text
  pub result : Text
  pub webhook : Text
  pub user_id : Text
  pub page : ℕ

pub record Answer : Type 0 where
  pub logs : List LogItem
  pub paged : Paged
  pub batches : List (ℕ × Text)

-- The state of `LogsPage`, with the requests that it has sent.
pub record Page : Type 0 where
  pub logs : Option (List LogItem)
  pub paged : Paged
  pub batch_options : List (ℕ × Text)
  pub filters : Filters
  pub asked : List LogsParams

-- The value of a selection; the marker stands for all.
unfoldable pub all_marker : Text
all_marker = text "__all__"

unfoldable pub chosen : Text → Text
chosen v = if is_empty v || text_eq v all_marker then [] else v

-- The handlers of the filters and of the page bar.
pub data Change : Type 0 where
  to_batch to_result to_webhook to_user : Text → Change
  to_page : ℕ → Change
  reset : Change

unfoldable pub change : Change → Filters → Filters
change (to_batch v) f = record f { batch_id = chosen v; page = 1 }
change (to_result v) f = record f { result = chosen v; page = 1 }
change (to_webhook v) f = record f { webhook = chosen v; page = 1 }
change (to_user v) f = record f { user_id = v; page = 1 }
change (to_page n) f = record f { page = n }
change reset f = record { batch_id = []; result = []; webhook = []; user_id = []; page = 1 }

unfoldable pub same_filters : Filters → Filters → Bool
same_filters f g =
    text_eq f.batch_id g.batch_id
    && (text_eq f.result g.result
        && (text_eq f.webhook g.webhook && (text_eq f.user_id g.user_id && (f.page == g.page))))

-- `value || undefined`.
abbrev or_undefined : Text → Option Text
or_undefined [] = none
or_undefined (c ∷ s) = some (c ∷ s)

-- From the answer of `load` on.
unfoldable pub answered : Settled Answer → Page → Page
answered (rejected e) p = p
answered (resolved a) p = record p {
  logs = some a.logs;
  paged = a.paged;
  batch_options = a.batches;
}

module _ (to_number : Text → ℕ) where
  unfoldable pub params_of : Filters → LogsParams
  params_of f = record {
    batch_id = if is_empty f.batch_id then none else some (to_number f.batch_id);
    result = or_undefined f.result;
    webhook = or_undefined f.webhook;
    user_id = or_undefined (trim f.user_id);
    page = some f.page;
  }

  -- `load`, up to its request.
  unfoldable pub load : Filters → Page → Page
  load f p = record p { logs = none; asked = p.asked ++ (params_of f ∷ []) }

  -- The page as it is first shown: its effect loads.
  unfoldable pub initial_page : Page
  initial_page =
      load (record { batch_id = []; result = []; webhook = []; user_id = []; page = 1 })
        (record {
          logs = none;
          paged = record { total = 0; page = 1; pages = 1 };
          batch_options = [];
          filters = record { batch_id = []; result = []; webhook = []; user_id = []; page = 1 };
          asked = [];
        })

  -- A change of the filters; the effect loads again if it changes anything.
  unfoldable pub set_filters : Change → Page → Page
  set_filters c p =
      if same_filters (change c p.filters) p.filters
      then p
      else load (change c p.filters) (record p { filters = change c p.filters })

  -- The end of `handleResend`: it loads for the filters of the time of its click.
  unfoldable pub resent : Filters → Settled Text → Page → Page
  resent f (resolved message) p = load f p
  resent f (rejected e) p = p
