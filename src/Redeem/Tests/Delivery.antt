-- ===== src/Redeem/Tests/Delivery.antt =====
-- Runs of the redeem form together with its page.
use cdk_system.Base.{◌≡◌, refl, true, false, [], ◌∷◌, text, arith}
use cdk_system.Json.{str, obj, field, end}
use mathlib.Core.List.{reverse}
use cdk_system.Redeem.Delivery.Clicks.{clicks, same_entries, clicks-same_entries}
use cdk_system.Api.{resolved, rejected, other}
use cdk_system.Redeem.Submit.{redeem_batch_settled}
use cdk_system.Redeem.Submit.Runs.{idle, Reach}
use cdk_system.Redeem.Submit.Release.{Outcomes, settle_one, Reach-settle_one}
use cdk_system.Redeem.History.{open_page, load_redeem_history, read_entries}
use cdk_system.Redeem.Delivery.{Stamps, deliver}
use cdk_system.Redeem.Delivery.Laws.{HasEntries, new_entries, redeem_batch_settled-HasEntries}
use cdk_system.Redeem.Tests.{item, one_failed, submitted, submitted-Reach, two_codes}
use cdk_system.Redeem.Tests.History.{find, memory, opened, parse, stringify}

abbrev stamps : Stamps
stamps n = (n ∷ [], text "now")

redeem_batch_settled-HasEntries_example :
    HasEntries parse stringify memory (new_entries stamps one_failed.results) opened (
      deliver parse stringify memory stamps
        (redeem_batch_settled (resolved one_failed) two_codes).1
        opened)
unfolding open_page load_redeem_history read_entries find
redeem_batch_settled-HasEntries_example =
    redeem_batch_settled-HasEntries parse stringify memory stamps one_failed two_codes opened refl
      (omega arith)

-- The server answers, but the archive cannot be packed.
abbrev outcomes : Outcomes
outcomes = record {
  single = rejected (other (text "offline"));
  batch = resolved one_failed;
  archive = rejected (other (text "no archive"));
}

Reach-settle_one_example :
    Reach (settle_one outcomes (settle_one outcomes submitted))
    × ((settle_one outcomes (settle_one outcomes submitted)).wait ≡ idle)
    × ((settle_one outcomes (settle_one outcomes submitted)).tab.loading ≡ false)
Reach-settle_one_example = Reach-settle_one outcomes submitted submitted-Reach

-- Twenty looks at the first item.
clicks-same_entries_example :
    (deliver parse stringify memory stamps (clicks 20 (item (text "AB1") true)) opened).history
    ≡ reverse (same_entries stamps 20 (obj (field (text "code") (str (text "AB1")) end)))
unfolding open_page load_redeem_history read_entries find
clicks-same_entries_example =
    clicks-same_entries parse stringify memory stamps (item (text "AB1") true)
      (obj (field (text "code") (str (text "AB1")) end)) opened refl refl (omega arith)
