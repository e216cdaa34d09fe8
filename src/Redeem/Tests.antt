-- ===== src/Redeem/Tests.antt =====
-- Runs of the redeem page on small inputs.
mod Delivery
mod History
use cdk_system.Base.{
  ◌≡◌, ◌↔◌, ◌≤◌, ◌≢◌, refl, leb, Bool, true, false, Option, none, some, List, [], ◌∷◌, ◌++◌, map,
  Text, text, text_eq, trim, trim_start, keep, Every, arith, is_space, is_alnum, upper, any, all,
  starts_with, join, take, length, not, if◌then◌else◌, inl, inr,
}
use cdk_system.Json.{Json, str, bool, obj, arr, Fields, field, end, array_of, get, lookup}
use cdk_system.Api.{resolved, rejected}
use cdk_system.Storage.{Storage, IsLawful}
use cdk_system.Redeem.Codes.{
  normalize_cdk, is_separator, split_runs, contains, parse_parts, parse_cdk_list,
}
use cdk_system.Redeem.Codes.Parts.{is_code, is_code_unit}
use cdk_system.Redeem.Codes.Laws.{AreCodes, parse_cdk_list-AreCodes}
use cdk_system.Redeem.Codes.Roundtrip.{lines, parse_cdk_list-lines}
use cdk_system.Redeem.Email.{
  is_plain, dot_inside, is_domain, is_address, is_valid_email, IsAddress, is_valid_email_iff,
}
use cdk_system.Redeem.Archive.{RedeemBatchItem, LocalTime, is_successful, create_redeem_archive}
use cdk_system.Redeem.Archive.Laws.{IsPacked, create_redeem_archive-IsPacked}
use cdk_system.Redeem.Submit.{
  Tab, RedeemBatchResponse, Redemption, one, many, initial_tab, handle_submit, failed_codes,
  redeem_batch_settled, change_user_id, change_code_input,
}
use cdk_system.Redeem.Submit.Laws.{
  IsSubmission, handle_submit-IsSubmission, unredeemed, parse_cdk_list-redeem_batch_settled,
}
use cdk_system.Redeem.Submit.Runs.{
  Form, idle, for_answer, is_busy, Reach, start, next, type_user, type_code, submit, Reach-loading,
}

abbrev pub two_codes : Tab
two_codes = record initial_tab { user_id = text " ann@shop.org "; code_input = text "ab-1; cd2" }

abbrev sent_tab : Tab
sent_tab = record two_codes { loading = true }

abbrev pub both : Redemption
both = many (text "ann@shop.org") (text "AB1" ∷ text "CD2" ∷ [])

abbrev pub item : Text → Bool → RedeemBatchItem
item code success = record {
  code = code;
  success = success;
  result = [];
  message = [];
  redemption = if success then some (obj (field (text "code") (str code) end)) else none;
}

abbrev pub one_failed : RedeemBatchResponse
one_failed = record {
  success = true;
  total = 2;
  succeeded = 1;
  failed = 1;
  results = item (text "AB1") true ∷ item (text "CD2") false ∷ [];
}

handle_submit-two_codes : handle_submit two_codes ≡ (sent_tab, some both)
unfolding initial_tab handle_submit trim trim_start is_space is_valid_email is_plain dot_inside
    is_domain is_address parse_cdk_list parse_parts split_runs is_separator normalize_cdk is_alnum
    upper keep contains text text_eq any all
handle_submit-two_codes = refl

-- Two codes of eight characters, of which the first is redeemed: its item shows it with a dash.
abbrev two_long_codes : Tab
two_long_codes = record initial_tab {
  user_id = text "ann@shop.org";
  code_input = text "ab12-cd34; ef56gh78";
}

abbrev long_codes : List Text
long_codes = text "AB12CD34" ∷ text "EF56GH78" ∷ []

abbrev second_failed : RedeemBatchResponse
second_failed = record one_failed {
  results = item (text "AB12-CD34") true ∷ item (text "EF56GH78") false ∷ [];
}

handle_submit-two_long_codes :
    handle_submit two_long_codes
    ≡ (record two_long_codes { loading = true }, some (many (text "ann@shop.org") long_codes))
unfolding initial_tab handle_submit trim trim_start is_space is_valid_email is_plain dot_inside
    is_domain is_address parse_cdk_list parse_parts split_runs is_separator normalize_cdk is_alnum
    upper keep contains text text_eq any all
handle_submit-two_long_codes = refl

parse_cdk_list-redeem_batch_settled_example :
    parse_cdk_list
      (redeem_batch_settled
        (resolved second_failed)
        (record two_long_codes { loading = true })).0.code_input
    ≡ unredeemed long_codes second_failed.results
parse_cdk_list-redeem_batch_settled_example =
    parse_cdk_list-redeem_batch_settled two_long_codes (record two_long_codes { loading = true })
      (text "ann@shop.org") long_codes second_failed handle_submit-two_long_codes
      (inl refl, (inr refl, tt)) (ground arith)

handle_submit-IsSubmission_example : IsSubmission two_codes (handle_submit two_codes)
handle_submit-IsSubmission_example = handle_submit-IsSubmission two_codes

-- The form when both fields are filled in and the button has been clicked.
abbrev pub typed : Form
typed = record {
  tab = change_code_input (text "ab-1; cd2") (change_user_id (text "ann@shop.org") initial_tab);
  wait = idle;
}

abbrev pub submitted : Form
submitted = record { tab = (handle_submit typed.tab).0; wait = for_answer both }

pub submitted-Reach : Reach submitted
unfolding initial_tab handle_submit trim trim_start is_space is_valid_email is_plain dot_inside
    is_domain is_address parse_cdk_list parse_parts split_runs is_separator normalize_cdk is_alnum
    upper keep contains text text_eq any all change_code_input change_user_id
submitted-Reach =
    next (next (next start (type_user (text "ann@shop.org") _)) (type_code (text "ab-1; cd2") _))
      (submit typed refl)

Reach-loading_example : submitted.tab.loading ≡ is_busy submitted.wait
Reach-loading_example = Reach-loading submitted submitted-Reach

parse_cdk_list-AreCodes_example : AreCodes (text "ab 1,AB") (parse_cdk_list (text "ab 1,AB"))
parse_cdk_list-AreCodes_example = parse_cdk_list-AreCodes (text "ab 1,AB")

parse_cdk_list-lines_example :
    parse_cdk_list (lines (text "AB1" ∷ text "CD2" ∷ [])) ≡ text "AB1" ∷ text "CD2" ∷ []
unfolding all any contains text text_eq
parse_cdk_list-lines_example =
    parse_cdk_list-lines (text "AB1" ∷ text "CD2" ∷ []) (refl, (refl, tt)) (refl, (refl, tt))

is_valid_email_iff_example :
    (is_valid_email (text "a@b.c") ≡ true)
    ↔ ((length (text "a@b.c") ≤ 254) × IsAddress (text "a@b.c"))
is_valid_email_iff_example = is_valid_email_iff (text "a@b.c")

abbrev noon : LocalTime
noon = record { year = 2025; month = 4; date = 6; hours = 12; minutes = 0; seconds = 9 }

create_redeem_archive-IsPacked_example :
    IsPacked
      (λ v. [])
      (keep is_successful one_failed.results)
      (create_redeem_archive (λ v. []) noon one_failed.results)
create_redeem_archive-IsPacked_example =
    create_redeem_archive-IsPacked (λ v. []) noon one_failed.results
