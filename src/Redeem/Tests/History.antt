-- ===== src/Redeem/Tests/History.antt =====
-- Runs of the history of redemptions, on a storage in memory.
use cdk_system.Base.{
  ◌≡◌, ◌↔◌, refl, ap, sym, ◌∙◌, true, false, Option, none, some, List, [], ◌∷◌, Text, text, text_eq,
  text_eq_refl, take, keep, length, if◌then◌else◌,
}
use mathlib.Core.Option.{some-injective}
use cdk_system.Json.{Json, null, str, bool, arr, array_of, get, lookup, is_string, is_record}
use cdk_system.Storage.{Storage, IsLawful}
use cdk_system.Api.Endpoints.{object}
use cdk_system.Redeem.History.Guards.{is_redeem_success, is_history_entry}
use cdk_system.Redeem.History.{
  has_id, create_history_entry, Page, open_page, load_redeem_history, read_entries,
  persist_redeem_history, commit_history, handle_redeem_success, handle_delete_history,
}
use cdk_system.Redeem.History.Laws.{IsSound, Reach, here, next, succeed, answers_of, Reach-IsSound}
use cdk_system.Redeem.History.Full.{handle_delete_history-newest}
use cdk_system.Redeem.History.Stored.{Reach-open_page}
use cdk_system.Redeem.History.Typed.{RedeemHistoryEntry, IsEntry, is_history_entry_iff}

unfoldable pub find : List (Text × Text) → Text → Option Text
find [] key = none
find ((k, v) ∷ rest) key = if text_eq k key then some v else find rest key

abbrev pub memory : Storage
memory = record {
  State = List (Text × Text);
  get_item = λ items key. some (find items key);
  set_item = λ items key value. some ((key, value) ∷ items);
  remove_item = λ items key. some items;
}

find-cons :
    (items : List (Text × Text)) (key value : Text) → find ((key, value) ∷ items) key ≡ some value
unfolding find
find-cons items key value = rw (text_eq_refl key)

memory-IsLawful : IsLawful memory
memory-IsLawful = record {
  get-set = λ items key value e.
      ap (λ o. some o)
        (ap (λ s. find s key) (sym (some-injective _ _ e)) ∙ find-cons items key value);
}

abbrev pub redemption : Json
redemption = object (
    (text "ok", bool true)
    ∷ (text "result", str (text "success"))
    ∷ (text "message", str (text "done"))
    ∷ (text "batch", str (text "May"))
    ∷ (text "code", str (text "AB1"))
    ∷ (text "user_id", str (text "a@b.c"))
    ∷ (text "redeemed_at", str (text "2025-05-06"))
    ∷ (text "payload", null)
    ∷ [])

abbrev pub entries : List Json
entries = create_history_entry (text "7") (text "now") redemption ∷ []

abbrev pub parse : Text → Option Json
parse s = some (arr (array_of entries))

abbrev pub stringify : Json → Text
stringify v = text "printed"

abbrev pub opened : Page parse stringify memory
opened = open_page parse stringify memory []

-- The page after one redemption.
abbrev redeemed : Page parse stringify memory
redeemed =
    handle_redeem_success parse stringify memory (text "7") (text "now") redemption true opened

-- What the API resolves for a 2xx answer whose body is no JSON, shown as a redemption.
abbrev plain_answer : Json
plain_answer = object ((text "ok", bool false) ∷ (text "message", str (text "Created")) ∷ [])

abbrev both_entries : List Json
both_entries =
    create_history_entry (text "8") (text "later") plain_answer
    ∷ create_history_entry (text "7") (text "now") redemption
    ∷ []

abbrev parse_both : Text → Option Json
parse_both s = some (arr (array_of both_entries))

abbrev opened_empty : Page parse_both stringify memory
opened_empty = open_page parse_both stringify memory []

-- The page after one redemption and one such answer.
abbrev misled : Page parse_both stringify memory
misled =
    handle_redeem_success parse_both stringify memory (text "8") (text "later") plain_answer true (
      handle_redeem_success parse_both stringify memory (text "7") (text "now") redemption true
        opened_empty)

abbrev misled-Reach : Reach parse_both stringify memory opened_empty misled
misled-Reach =
    next (next here (succeed (text "7") (text "now") redemption true opened_empty))
      (succeed (text "8") (text "later") plain_answer true _)

Reach-open_page_example :
    (open_page parse_both stringify memory misled.session).history
    ≡ keep is_history_entry misled.history
unfolding open_page load_redeem_history read_entries find handle_redeem_success commit_history
    persist_redeem_history text
Reach-open_page_example =
    Reach-open_page parse_both stringify memory memory-IsLawful [] misled misled-Reach refl
      (record { parsed = refl; printed = refl })

-- Two entries are shown, and one is left after a reload.
one_lost :
    (length misled.history ≡ 2)
    × (keep is_history_entry misled.history
        ≡ create_history_entry (text "7") (text "now") redemption ∷ [])
unfolding open_page load_redeem_history read_entries find handle_redeem_success commit_history
    persist_redeem_history keep is_history_entry is_redeem_success create_history_entry object get
    lookup is_string is_record text text_eq
one_lost = (refl, refl)

is_history_entry_iff_example :
    let saved = create_history_entry (text "7") (text "now") redemption in
    ((is_history_entry saved ≡ true) ↔ ((e : RedeemHistoryEntry) × IsEntry saved e))
    × ((e f : RedeemHistoryEntry) → IsEntry saved e → IsEntry saved f → e ≡ f)
is_history_entry_iff_example =
    is_history_entry_iff (create_history_entry (text "7") (text "now") redemption)

Reach-IsSound_example : IsSound parse_both stringify memory 1 misled
unfolding answers_of keep is_redeem_success object get lookup text_eq text
Reach-IsSound_example = Reach-IsSound parse_both stringify memory [] misled misled-Reach

handle_delete_history-newest_example :
    (handle_delete_history parse stringify memory (text "8") (
      handle_redeem_success parse stringify memory
        (text "8")
        (text "later")
        redemption
        false
        redeemed)).history
    ≡ take 19 redeemed.history_ref
unfolding open_page load_redeem_history read_entries find handle_redeem_success commit_history
    persist_redeem_history has_id create_history_entry object get lookup text_eq text
handle_delete_history-newest_example =
    handle_delete_history-newest parse stringify memory (text "8") (text "later") redemption false
      redeemed (refl, tt)
