-- ===== src/Redeem/Submit/Shown.antt =====
-- What the redeem form shows besides its fields, in `RedeemTab` of web/src/pages/redeem.tsx.
use cdk_system.Base.{
  ℕ, ◌+◌, ◌≡◌, refl, Bool, true, false, not, Option, none, some, List, [], ◌∷◌, ◌++◌, Text, text,
  length, keep, decimal, is_some, ltb, min, if◌then◌else◌, arith,
}
use cdk_system.Json.{Json}
use cdk_system.Redeem.Codes.{parse_cdk_list}
use cdk_system.Redeem.Archive.{
  RedeemBatchItem, LocalTime, is_successful, create_redeem_archive, pack,
}
use cdk_system.Redeem.Submit.{Tab}

abbrev max : ℕ → ℕ → ℕ
max a b = if ltb a b then b else a

-- The rows of the field for codes.
unfoldable pub input_rows : Tab → ℕ
input_rows t =
    let codes = length (parse_cdk_list t.code_input) in
    if ltb 1 codes then min 8 (max 4 codes) else 3

-- The line below the field, and the label of the button.
unfoldable pub count_line : Tab → Text
count_line t = text "共 " ++ (decimal (length (parse_cdk_list t.code_input)) ++ text " 个")

unfoldable pub submit_label : Tab → Text
submit_label t =
    let codes = length (parse_cdk_list t.code_input) in
    if t.loading
    then text "兑换中…"
    else if ltb 1 codes
    then text "批量兑换 " ++ (decimal codes ++ text " 个")
    else text "立即兑换"

-- `archiveCount`.
unfoldable pub archive_count : Tab → ℕ
archive_count t = length (keep is_successful t.batch_results)

-- The numbers of items that succeeded and that failed.
unfoldable pub shown_counts : Tab → ℕ × ℕ
shown_counts t = (
  length (keep (λ item. item.success) t.batch_results),
  length (keep (λ item. not item.success) t.batch_results),
)

-- The button that packs the results again: none without a successful item, else whether it is
-- disabled.
unfoldable pub archive_button : Tab → Option Bool
archive_button t = if ltb 0 (archive_count t) then some t.archive_loading else none

-- One row of the results: its mark, its code, its message, and the redemption that its button shows.
pub record ResultRow : Type 0 where
  pub check_mark : Bool
  pub code : Text
  pub message : Text
  pub viewed : Option Json

unfoldable pub result_rows : List RedeemBatchItem → List ResultRow
result_rows [] = []
result_rows (item ∷ items) =
    record {
      check_mark = item.success;
      code = item.code;
      message = item.message;
      viewed = item.redemption;
    }
    ∷ result_rows items

counts_add :
    (items : List RedeemBatchItem)
    → length (keep (λ item. item.success) items) + length (keep (λ item. not item.success) items)
      ≡ length items
unfolding keep
counts_add [] = omega arith
counts_add (item ∷ items) = ground (arith, counts_add items)

length-result_rows : (items : List RedeemBatchItem) → length (result_rows items) ≡ length items
unfolding result_rows
length-result_rows [] = refl
length-result_rows (item ∷ items) = omega (arith, length-result_rows items)

-- The two numbers shown add up to the rows shown.
pub shown_counts-result_rows :
    (t : Tab) → (shown_counts t).0 + (shown_counts t).1 ≡ length (result_rows t.batch_results)
unfolding shown_counts
shown_counts-result_rows t =
    omega (arith, counts_add t.batch_results, length-result_rows t.batch_results)

is_some-pack :
    (stringify : Json → Text) (now : LocalTime) (items : List RedeemBatchItem)
    → is_some (pack stringify now items) ≡ ltb 0 (length items)
unfolding pack
is_some-pack stringify now [] = refl
is_some-pack stringify now (item ∷ items) = ground arith

-- The button is shown exactly if the packing of the shown results succeeds.
pub archive_button-create_redeem_archive :
    (stringify : Json → Text) (now : LocalTime) (t : Tab)
    → is_some (archive_button t) ≡ is_some (create_redeem_archive stringify now t.batch_results)
unfolding archive_button archive_count create_redeem_archive
archive_button-create_redeem_archive stringify now t =
    rw (is_some-pack stringify now (keep is_successful t.batch_results))
      (shown_if (ltb 0 (length (keep is_successful t.batch_results))) t.archive_loading)
  where
    shown_if : (b loading : Bool) → is_some (if b then some loading else none) ≡ b
    shown_if true loading = refl
    shown_if false loading = refl
