-- ===== src/Admin/Tests/Records.antt =====
-- Runs of the pages of records and of one batch.
use cdk_system.Base.{
  refl, text_eq, trim, trim_start, is_space, is_given, if◌then◌else◌, [], ◌≡◌, text,
}
use cdk_system.Api.{Settled, resolved}
use cdk_system.Api.Endpoints.{LogsParams}
use cdk_system.Admin.Logs.{
  Answer, Page, initial_page, load, set_filters, resent, to_result, change, chosen, all_marker,
  params_of, same_filters,
}
use cdk_system.Admin.Logs.Answers.{Shows, settled, settled-set_filters}
use cdk_system.Admin.Session.{current_title}
use cdk_system.Admin.Session.Menu.{Agrees, active_items, current_title-active_items}

-- A server with one record of a success and one of a failure.
abbrev serve : LogsParams → Settled Answer
serve q = resolved (record {
  logs = [];
  paged = record { total = if is_given q.result then 1 else 2; page = 1; pages = 1 };
  batches = [];
})

abbrev opened : Page
opened = initial_page (λ s. 0)

-- A notification is resent, the filter changes to the successes, and the page loads again.
abbrev filtered : Page
filtered = set_filters (λ s. 0) (to_result (text "success")) opened

abbrev reloaded : Page
reloaded = resent (λ s. 0) opened.filters (resolved (text "sent")) filtered

settled-set_filters_example :
    (Shows
        (λ s. 0)
        serve
        filtered.filters
        (record { logs = []; paged = record { total = 1; page = 1; pages = 1 }; batches = [] })
        (settled (λ s. 0) serve filtered)
      × ((settled (λ s. 0) serve filtered).filters
          ≡ change (to_result (text "success")) opened.filters))
    × Shows
        (λ s. 0)
        serve
        opened.filters
        (record { logs = []; paged = record { total = 2; page = 1; pages = 1 }; batches = [] })
        (settled (λ s. 0) serve reloaded)
    × ((settled (λ s. 0) serve reloaded).filters
        ≡ change (to_result (text "success")) opened.filters)
unfolding initial_page load change chosen all_marker params_of same_filters text_eq text trim
    trim_start is_space
settled-set_filters_example =
    settled-set_filters (λ s. 0) serve (to_result (text "success")) opened
      (record { logs = []; paged = record { total = 1; page = 1; pages = 1 }; batches = [] })
      opened.filters
      (record { logs = []; paged = record { total = 2; page = 1; pages = 1 }; batches = [] })
      (text "sent") refl refl refl

current_title-active_items_example :
    Agrees (current_title (text "/admin/batches/7")) (active_items (text "/admin/batches/7"))
current_title-active_items_example = current_title-active_items (text "/admin/batches/7")
