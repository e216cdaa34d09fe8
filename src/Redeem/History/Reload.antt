-- ===== src/Redeem/History/Reload.antt =====
-- A reload of the tab shows the entries of the stored history that pass the guard.
use cdk_system.Base.{
  ◌≤◌, ◌≡◌, ◌∙◌, ap, false, Option, some, List, Text, keep, take, length, take_of_le,
  length-keep-le, is_empty, arith,
}
use cdk_system.Json.{Json, arr, array_of}
use cdk_system.Json.Laws.{items_of-array_of}
use cdk_system.Storage.{Storage}
use cdk_system.Redeem.History.Guards.{is_history_entry}
use cdk_system.Redeem.History.{stored_entries, read_entries}

stored_entries-arr :
    (entries : List Json)
    → length entries ≤ 20
    → stored_entries (arr (array_of entries)) ≡ keep is_history_entry entries
unfolding stored_entries
stored_entries-arr entries h =
    ap (λ vs. take 20 (keep is_history_entry vs)) (items_of-array_of entries)
    ∙ take_of_le 20 (keep is_history_entry entries)
        (omega (arith, length-keep-le is_history_entry entries))

module _ (parse : Text → Option Json) (stringify : Json → Text) (S : Storage) where
  pub read_entries-stringify :
      (entries : List Json)
      → length entries ≤ 20
      → parse (stringify (arr (array_of entries))) ≡ some (arr (array_of entries))
      → is_empty (stringify (arr (array_of entries))) ≡ false
      → read_entries parse stringify S (some (stringify (arr (array_of entries))))
        ≡ keep is_history_entry entries
  unfolding read_entries
  read_entries-stringify entries h parsed full = rw (full, parsed) (stored_entries-arr entries h)
