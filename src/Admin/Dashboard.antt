-- ===== src/Admin/Dashboard.antt =====
-- The dashboard, web/src/pages/admin/dashboard.tsx: its one request and what is shown of the answer;
-- the chart draws the points that are given here.
use cdk_system.Base.{ℕ, Option, none, some, List, [], ◌∷◌, Text, text, ltb, if◌then◌else◌, map}
use cdk_system.Api.{Settled, resolved, rejected}
use cdk_system.Admin.Badges.{Badge, result_badge, webhook_badge}

-- `Stats`.
pub record Stats : Type 0 where
  pub codes_total : ℕ
  pub codes_used : ℕ
  pub batches : ℕ
  pub redeem_total : ℕ
  pub today : ℕ
  pub webhook_failed : ℕ

-- `DailyPoint`.
pub record DailyPoint : Type 0 where
  pub date : Text
  pub count : ℕ

-- `RecentItem`.
pub record RecentItem : Type 0 where
  pub id : ℕ
  pub created_at : Text
  pub batch_name : Option Text
  pub code : Text
  pub user_id : Text
  pub result : Text
  pub message : Text
  pub webhook_status : Text

-- An answer; the two lists may be null.
pub record Data : Type 0 where
  pub stats : Stats
  pub daily : Option (List DailyPoint)
  pub recent : Option (List RecentItem)

-- The answer to `api.stats`; a failure shows a notice only.
unfoldable pub stats_settled : Settled Data → Option Data → Option Data
stats_settled (resolved d) shown = some d
stats_settled (rejected e) shown = shown

pub data Tone : Type 0 where
  default primary destructive : Tone

-- A card with its title, value, tone and hint.
pub record Card : Type 0 where
  pub title : Text
  pub value : ℕ
  pub tone : Tone
  pub hint : Option Text

unfoldable pub stat_cards : Stats → List Card
stat_cards s =
    record { title = text "兑换码总数"; value = s.codes_total; tone = default; hint = none }
    ∷ record { title = text "成功兑换"; value = s.redeem_total; tone = default; hint = none }
    ∷ record { title = text "今日兑换"; value = s.today; tone = primary; hint = none }
    ∷ record { title = text "批次数"; value = s.batches; tone = default; hint = none }
    ∷ record {
      title = text "Webhook 失败";
      value = s.webhook_failed;
      tone = if ltb 0 s.webhook_failed then destructive else default;
      hint = if ltb 0 s.webhook_failed then some (text "可在兑换记录中重推") else none;
    }
    ∷ []

abbrev pub or_empty {ℓ} : {A : Type ℓ} → Option (List A) → List A
or_empty none = []
or_empty (some xs) = xs

-- A row of the last redemptions.
pub record RecentRow : Type 0 where
  pub time : Text
  pub batch : Text
  pub code : Text
  pub user : Text
  pub result : Badge
  pub webhook : Option Badge

unfoldable pub recent_row : RecentItem → RecentRow
recent_row r = record {
  time = r.created_at;
  batch = elim r.batch_name [ none ↦ text "—" | some name ↦ name ];
  code = r.code;
  user = r.user_id;
  result = result_badge r.result r.message;
  webhook = webhook_badge r.webhook_status;
}

-- What the page shows: grey boxes until the answer is there, then the cards, the points of the chart
-- and the rows, which are none for the notice that there are no redemptions.
pub data View : Type 0 where
  skeletons : View
  content : List Card → List DailyPoint → Option (List RecentRow) → View

abbrev rows_of : List RecentItem → Option (List RecentRow)
rows_of [] = none
rows_of (r ∷ rs) = some (map recent_row (r ∷ rs))

unfoldable pub dashboard_view : Option Data → View
dashboard_view none = skeletons
dashboard_view (some d) =
    content (stat_cards d.stats) (or_empty d.daily) (rows_of (or_empty d.recent))
