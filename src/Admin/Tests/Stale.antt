-- ===== src/Admin/Tests/Stale.antt =====
-- A late answer makes the bar of the list of credentials lead to page zero: the rows of page five come
-- behind those of page one, to which a change of the filter has led.
use cdk_system.Base.{ℕ, ◌≡◌, refl, [], text}
use cdk_system.Api.{resolved}
use cdk_system.Api.Endpoints.{CredentialState}
use cdk_system.Admin.Credentials.{
  Query, Answer, Listing, initial_listing, load, set_query, same_query, change_page, change_state,
  settle, deleted,
}
use cdk_system.Admin.Credentials.Bar.{previous_click, to_page, page_controls_disabled}

abbrev nine_pages : ℕ → Answer
nine_pages n = record { items = []; paged = record { total = 450; page = n; pages = 9 } }

abbrev page_five : Query
page_five = record { state = CredentialState.all; page = 5; page_size = 50 }

-- On page five a credential is deleted, and before its answer comes the filter changes.
abbrev filtered : Listing
filtered =
    change_state CredentialState.used
      (settle page_five (resolved (nine_pages 5)) (change_page 5 initial_listing))

-- The deletion asks for page five again, and both answers come.
abbrev answered : Listing
answered = settle page_five (resolved (nine_pages 5)) (
    settle (record { state = CredentialState.used; page = 1; page_size = 50 })
      (resolved (nine_pages 1)) (deleted page_five (resolved (text "done")) filtered))

previous_click-answered : previous_click answered ≡ to_page 0
unfolding previous_click page_controls_disabled settle deleted load change_state set_query
    same_query change_page initial_listing
previous_click-answered = refl
