-- ===== src/Redeem/Submit.antt =====
-- The redeem form, `RedeemTab` of web/src/pages/redeem.tsx, as steps between the points where its
-- handlers wait: for the server, and for the archive.
pub mod Laws
pub mod Runs
pub mod Release
pub mod Shown
use cdk_system.Base.{
  ℕ, Bool, true, false, ◌&&◌, ◌==◌, not, Option, none, some, List, [], ◌∷◌, ◌++◌, map, Text, text,
  trim, is_empty, is_some, join, keep, decimal, ltb, if◌then◌else◌,
}
use cdk_system.Json.{Json}
use cdk_system.Api.{Settled, resolved, rejected, Failure, api_message, error_message}
use cdk_system.Redeem.Codes.{parse_cdk_list}
use cdk_system.Redeem.Email.{is_valid_email}
use cdk_system.Redeem.Archive.{RedeemBatchItem, Archive}

-- `RedeemBatchResponse`.
pub record RedeemBatchResponse : Type 0 where
  pub success : Bool
  pub total : ℕ
  pub succeeded : ℕ
  pub failed : ℕ
  pub results : List RedeemBatchItem

-- What a handler does outside the form: it hands a redemption to the page (with `reveal`), shows a
-- message, or starts a download.
pub data Effect : Type 0 where
  on_success : Json → Bool → Effect
  toast_success : Text → Effect
  toast_warning : Text → Effect
  download_blob : Archive → Effect

pub record Tab : Type 0 where
  pub user_id : Text
  pub code_input : Text
  pub loading : Bool
  pub error : Option Text
  pub batch_results : List RedeemBatchItem
  pub archive_loading : Bool

unfoldable pub initial_tab : Tab
initial_tab = record {
  user_id = [];
  code_input = [];
  loading = false;
  error = none;
  batch_results = [];
  archive_loading = false;
}

-- `if (error) setError(null)`: an empty message stays.
abbrev cleared : Option Text → Option Text
cleared (some (c ∷ s)) = none
cleared error = error

-- `if (batchResults.length) setBatchResults([])`.
abbrev emptied : List RedeemBatchItem → List RedeemBatchItem
emptied [] = []
emptied (item ∷ items) = []

-- The handlers of the two input fields.
unfoldable pub change_user_id : Text → Tab → Tab
change_user_id value t = record t { user_id = value; error = cleared t.error }

unfoldable pub change_code_input : Text → Tab → Tab
change_code_input value t = record t {
  code_input = value;
  error = cleared t.error;
  batch_results = emptied t.batch_results;
}

-- `handlePaste`, with what the clipboard gives; `none` is an exception.
unfoldable pub handle_paste : Option Text → Tab → Tab
handle_paste none t = record t { error = some (text "无法读取剪贴板，请手动粘贴") }
handle_paste (some []) t = t
handle_paste (some (c ∷ s)) t = record t { code_input = c ∷ s }

-- The request that a submission sends.
pub data Redemption : Type 0 where
  one : Text → Text → Redemption
  many : Text → List Text → Redemption

abbrev request_for : Text → List Text → Option Redemption
request_for uid [] = none
request_for uid (code ∷ []) = some (one uid code)
request_for uid (code ∷ next ∷ codes) = some (many uid (code ∷ next ∷ codes))

-- `handleSubmit` up to its request.
unfoldable pub handle_submit : Tab → Tab × Option Redemption
handle_submit t =
    if is_empty (trim t.user_id)
    then (record t { error = some (text "请输入邮箱") }, none)
    else if not (is_valid_email (trim t.user_id))
    then (record t { error = some (text "邮箱格式不正确，请检查后重试") }, none)
    else if is_empty (parse_cdk_list t.code_input)
    then (record t { error = some (text "请输入兑换码") }, none)
    else (
      record t { loading = true; error = none; batch_results = [] },
      request_for (trim t.user_id) (parse_cdk_list t.code_input),
    )

abbrev network_error : Text
network_error = text "网络异常，请检查网络后重试"

-- The rest of `handleSubmit` when the answer for one code is there.
unfoldable pub redeem_settled : Settled Json → Tab → Tab × List Effect
redeem_settled (resolved result) t =
    (record t { code_input = []; loading = false }, on_success result true ∷ [])
redeem_settled (rejected e) t =
    (record t { error = some (api_message network_error e); loading = false }, [])

-- `for (const item of data.results) if (item.redemption) onSuccess(item.redemption, false)`.
unfoldable pub report_all : List RedeemBatchItem → List Effect
report_all [] = []
report_all (item ∷ items) = elim item.redemption [
  | none ↦ report_all items
  | some redemption ↦ on_success redemption false ∷ report_all items
]

-- `results.filter((item) => !item.ok).map((item) => item.code)`.
unfoldable pub failed_codes : List RedeemBatchItem → List Text
failed_codes results = map (λ item. item.code) (keep (λ item. not item.success) results)

abbrev refill : RedeemBatchResponse → Tab → Tab × List Effect
refill answer t =
    if answer.failed == 0
    then (
      record t { code_input = [] },
      toast_success (decimal answer.succeeded ++ text " 个兑换码全部兑换成功") ∷ [],
    )
    else (record t { code_input = join (10 ∷ []) (failed_codes answer.results) }, [])

-- The rest of `handleSubmit` when the answer for several codes is there, up to the archive, which
-- it waits for if anything succeeded (the last component). The answer has its declared type: the
-- object `{ ok: false, message }` that `request` makes of a 2xx body that is no JSON has no results, and
-- is not described here.
unfoldable pub redeem_batch_settled :
    Settled RedeemBatchResponse → Tab → Tab × List Effect × Option (List RedeemBatchItem)
redeem_batch_settled (rejected e) t =
    (record t { error = some (api_message network_error e); loading = false }, [], none)
redeem_batch_settled (resolved answer) t =
    let (t', toasts) = refill answer (record t { batch_results = answer.results }) in
    if ltb 0 answer.succeeded
    then (
      record t' { archive_loading = true },
      report_all answer.results ++ toasts,
      some answer.results,
    )
    else (record t' { loading = false }, report_all answer.results ++ toasts, none)

-- `downloadArchive` from a click on the button, up to the archive.
unfoldable pub download_archive : Tab → Tab × List RedeemBatchItem
download_archive t = (record t { archive_loading = true }, t.batch_results)

-- The rest of `downloadArchive`; every rejection of it is an `Error`.
unfoldable pub archive_settled : Bool → Settled Archive → Tab → Tab × List Effect
archive_settled automatic (rejected e) t =
    (record t { archive_loading = false }, toast_warning (error_message e) ∷ [])
archive_settled automatic (resolved a) t = (
  record t { archive_loading = false },
  download_blob a
      ∷ toast_success
          (decimal a.count ++ (if automatic then text " 个成功结果已自动打包下载" else text " 个成功结果已重新打包下载"))
      ∷ [],
)

-- The end of `handleSubmit` behind the automatic download.
unfoldable pub submit_done : Tab → Tab
submit_done t = record t { loading = false }
