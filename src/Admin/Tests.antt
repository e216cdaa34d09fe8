-- ===== src/Admin/Tests.antt =====
-- Runs of the pages of the administration on small inputs.
mod Batch
mod Records
mod Settings
mod Settling
mod Shown
mod Stale
mod Uploads
use cdk_system.Base.{
  ℕ, ◌+◌, ◌≡◌, ◌↔◌, ◌≤◌, ◌<◌, refl, true, false, not, none, some, List, [], ◌∷◌, text, any, length,
  keep, arith,
}
use cdk_system.Api.{File, resolved}
use cdk_system.Api.Endpoints.{CredentialState}
use cdk_system.Admin.Pagination.{
  compact_page_items, Paged, range_start, range_end, Bar, data_pagination,
}
use cdk_system.Admin.Pagination.Rows.{IsOnPage, row-IsOnPage}
use cdk_system.Admin.Pagination.Laws.{
  LeadsTo, is_page, compact_page_items-LeadsTo, data_pagination-bounds,
}
use cdk_system.Admin.Credentials.{
  Credential, Query, Answer, Listing, initial_listing, load, settle, ids, all_selected,
  toggle_select, toggle_select_all, batch_delete,
}
use cdk_system.Admin.Credentials.Numbers.{has, remove, distinct, IsWithin}
use cdk_system.Admin.Credentials.Laws.{
  IsSoundListing, Reach, start, next, answer, Reach-IsSoundListing,
}
use cdk_system.Admin.Credentials.Selection.{all_selected_iff}
use cdk_system.Admin.Credentials.Clicks.{
  Box, row, every_row, click, clicks, set_of, replay, sent_ids, clicks-replay,
}
use cdk_system.Admin.Credentials.Upload.{Upload, initial_upload, plan_type, handle_upload}
use cdk_system.Admin.Credentials.Upload.Laws.{IsPlanName, handle_upload_iff}

compact_page_items-LeadsTo_example :
    LeadsTo 9 0 (compact_page_items 5 9)
    × (any (is_page 5) (compact_page_items 5 9) ≡ true)
    × (length (compact_page_items 5 9) ≤ 5)
compact_page_items-LeadsTo_example = compact_page_items-LeadsTo 5 9 (omega arith) (omega arith)

abbrev second : Paged
second = record { total = 120; page = 2; pages = 3 }

row-IsOnPage_example :
    (n : ℕ) × IsOnPage 50 second 51 n × ((m : ℕ) → IsOnPage 50 second 51 m → m ≡ n)
row-IsOnPage_example =
    row-IsOnPage 50 second 51 (omega arith) (omega arith) (omega arith) (omega arith)

abbrev credential : ℕ → Credential
credential id = record {
  id = id;
  email = text "a@b.c";
  plan_type = text "plus";
  expired = none;
  used = false;
  redemption_id = none;
  created_at = [];
  updated_at = [];
}

abbrev rows : List Credential
rows = credential 4 ∷ credential 7 ∷ []

abbrev first : Query
first = record { state = CredentialState.all; page = 1; page_size = 50 }

abbrev rows_answer : Answer
rows_answer = record { items = rows; paged = record { total = 2; page = 1; pages = 1 } }

-- The list when its first answer is there.
abbrev shown : Listing
shown = settle first (resolved rows_answer) (record initial_listing { pending = [] })

shown-Reach : Reach shown
unfolding initial_listing load has
shown-Reach =
    next start (answer initial_listing [] [] first (resolved rows_answer) refl (refl, (refl, tt)))

shown-rows : shown.items ≡ some rows
unfolding settle
shown-rows = refl

Reach-IsSoundListing_example : IsSoundListing shown
Reach-IsSoundListing_example = Reach-IsSoundListing shown shown-Reach

all_selected_iff_example :
    (all_selected shown ≡ true) ↔ ((0 < length rows) × IsWithin (ids rows) shown.selected)
all_selected_iff_example = all_selected_iff shown rows shown-Reach shown-rows

abbrev boxes : List Box
boxes = row 7 ∷ every_row ∷ row 4 ∷ []

clicks-replay_example :
    (set_of (clicks boxes shown).selected ≡ replay (ids rows) boxes (set_of shown.selected))
    × (set_of (sent_ids (batch_delete (clicks boxes shown)))
        ≡ replay (ids rows) boxes (set_of shown.selected))
unfolding has
clicks-replay_example =
    clicks-replay boxes shown rows shown-Reach shown-rows (refl, (tt, (refl, tt)))

-- The clicks leave row 7.
clicks-boxes : (clicks boxes shown).selected ≡ 7 ∷ []
unfolding clicks click toggle_select toggle_select_all settle has remove distinct keep
clicks-boxes = refl
