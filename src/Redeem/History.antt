-- ===== src/Redeem/History.antt =====
-- The history of redemptions that the redeem page keeps for its tab, in web/src/pages/redeem.tsx.
-- An entry and a redemption are the values that the server and the storage deliver, checked by the
-- type guards of the source. The browser's storage and `JSON` are parameters.
pub mod Guards
pub mod Typed
pub mod Entries
pub mod Laws
pub mod Reload
pub mod Stored
pub mod Full
use cdk_system.Base.{
  ℕ, suc, Bool, true, false, Option, none, some, List, [], ◌∷◌, Text, text, text_eq, not, keep,
  take, is_some, is_empty, if◌then◌else◌,
}
use cdk_system.Json.{Json, null, bool, num, str, arr, obj, get, array_of, items_of}
use cdk_system.Api.Endpoints.{object}
use cdk_system.Redeem.History.Guards.{is_history_entry}
use cdk_system.Storage.{Storage}

unfoldable pub redeem_history_key : Text
redeem_history_key = text "cdk-redeem-history-v2"

unfoldable pub legacy_redeem_history_key : Text
legacy_redeem_history_key = text "cdk-redeem-history-v1"

abbrev pub redeem_history_limit : ℕ
redeem_history_limit = 20

-- `createHistoryEntry`: the random id and the time of saving are given.
unfoldable pub create_history_entry : Text → Text → Json → Json
create_history_entry id saved_at result =
    object ((text "id", str id) ∷ (text "saved_at", str saved_at) ∷ (text "result", result) ∷ [])

-- `entry.id === id`.
unfoldable pub has_id : Text → Json → Bool
has_id id entry = elim (get (text "id") entry) [ some (str s) ↦ text_eq s id | _ ↦ false ]

-- What is kept of a stored text that parses.
unfoldable pub stored_entries : Json → List Json
stored_entries (arr vs) = take redeem_history_limit (keep is_history_entry (items_of vs))
stored_entries _ = []

module _ (parse : Text → Option Json) (stringify : Json → Text) (S : Storage) where
  -- From the stored text on.
  unfoldable pub read_entries : Option Text → List Json
  read_entries none = []
  read_entries (some raw) =
      if is_empty raw
      then []
      else elim (parse raw) [ none ↦ [] | some parsed ↦ stored_entries parsed ]

  -- `loadRedeemHistory` reads the session's storage; an exception gives an empty history.
  unfoldable pub load_redeem_history : S.State → List Json
  load_redeem_history session = elim (S.get_item session redeem_history_key) [
    | none ↦ []
    | some raw ↦ read_entries raw
  ]

  -- The first half of `loadRedeemHistory`, on the local storage: an old history is removed.
  unfoldable pub remove_legacy : S.State → S.State
  remove_legacy local = elim (S.remove_item local legacy_redeem_history_key) [
    | none ↦ local
    | some local' ↦ local'
  ]

  -- `persistRedeemHistory`: `none` where the storage throws.
  unfoldable pub persist_redeem_history : List Json → S.State → Option S.State
  persist_redeem_history entries session =
      S.set_item session redeem_history_key (stringify (arr (array_of entries)))

  -- The state of `RedeemPage`, with the session's storage and the warnings shown.
  pub record Page : Type 0 where
    pub history : List Json
    pub history_ref : List Json
    pub history_open : Bool
    pub selected_result : Option Json
    pub session : S.State
    pub warnings : ℕ

  unfoldable pub open_page : S.State → Page
  open_page session = record {
    history = load_redeem_history session;
    history_ref = load_redeem_history session;
    history_open = false;
    selected_result = none;
    session = session;
    warnings = 0;
  }

  unfoldable pub commit_history : List Json → Page → Page
  commit_history next p = elim (persist_redeem_history next p.session) [
    | none ↦ record p { history_ref = next; history = next; warnings = suc p.warnings }
    | some session ↦ record p { history_ref = next; history = next; session = session }
  ]

  unfoldable pub handle_redeem_success : Text → Text → Json → Bool → Page → Page
  handle_redeem_success id saved_at result reveal p =
      let p' =
        commit_history
          (take redeem_history_limit (create_history_entry id saved_at result ∷ p.history_ref)) p in
      if reveal then record p' { selected_result = some result } else p'

  unfoldable pub handle_delete_history : Text → Page → Page
  handle_delete_history id p =
      commit_history (keep (λ entry. not (has_id id entry)) p.history_ref) p

  unfoldable pub handle_clear_history : Page → Page
  handle_clear_history p = commit_history [] p

  -- The callbacks that the page hands to its two dialogs.
  unfoldable pub select_entry : Json → Page → Page
  select_entry result p = record p { history_open = false; selected_result = some result }

  unfoldable pub close_result : Page → Page
  close_result p = record p { selected_result = none }
