-- ===== src/Admin/Session.antt =====
-- Who may see the administration: web/src/pages/admin/login.tsx, and the guard and the titles of
-- web/src/layouts/admin-layout.tsx. Routing belongs to a third-party library: a redirection is the
-- value that is handed to it.
pub mod Laws
pub mod Menu
use cdk_system.Base.{
  ℕ, Bool, true, false, ◌&&◌, ◌||◌, Option, none, some, List, [], ◌∷◌, Text, text, text_eq, text_or,
  drop, starts_with, is_empty, leb, if◌then◌else◌,
}
use cdk_system.Api.{Settled, resolved, rejected, Failure, api_message}

-- The state of `LoginPage`.
pub record Login : Type 0 where
  pub username : Text
  pub password : Text
  pub loading : Bool
  pub error : Option Text

unfoldable pub initial_login : Login
initial_login = record { username = []; password = []; loading = false; error = none }

unfoldable pub change_username : Text → Login → Login
change_username value l = record l { username = value }

unfoldable pub change_password : Text → Login → Login
change_password value l = record l { password = value }

-- `from`, of the state that the redirection left.
unfoldable pub from_of : Option Text → Text
from_of none = text "/admin"
from_of (some from) = text_or from (text "/admin")

-- `handleSubmit` up to its request: the name and the password that it sends.
unfoldable pub login_submit : Login → Login × Option (Text × Text)
login_submit l =
    if is_empty l.username || is_empty l.password
    then (record l { error = some (text "请输入用户名和密码") }, none)
    else (record l { loading = true; error = none }, some (l.username, l.password))

-- `handleSubmit` from the answer on: where it navigates to.
unfoldable pub login_settled : Text → Settled Text → Login → Login × Option Text
login_settled from (resolved username) l = (record l { loading = false }, some from)
login_settled from (rejected e) l =
    (record l { error = some (api_message (text "网络异常，请稍后再试") e); loading = false }, none)

pub data Auth : Type 0 where
  loading ok no_access : Auth

-- The state of `AdminLayout`; `alive` says that it is mounted.
pub record Layout : Type 0 where
  pub auth : Auth
  pub alive : Bool

unfoldable pub initial_layout : Layout
initial_layout = record { auth = Auth.loading; alive = true }

unfoldable pub unmount : Layout → Layout
unmount l = record l { alive = false }

-- The answer of `api.me()`. Both kinds of failure refuse the access; the notice differs.
unfoldable pub me_settled : Settled Text → Layout → Layout
me_settled (resolved username) l = if l.alive then record l { auth = ok } else l
me_settled (rejected e) l = if l.alive then record l { auth = no_access } else l

pub data View : Type 0 where
  to_login : Text → View
  skeleton outlet : View

-- What the layout shows at a path.
unfoldable pub layout_view : Text → Layout → View
layout_view pathname l = elim l.auth [
  | no_access ↦ to_login pathname
  | loading ↦ skeleton
  | ok ↦ outlet
]

-- `handleLogout` navigates whatever the answer is.
unfoldable pub logged_out : Settled Text → Text
logged_out answer = text "/admin/login"

abbrev pub digit_first : Text → Bool
digit_first [] = false
digit_first (c ∷ s) = leb b'0' c && leb c b'9'

-- `currentTitle`: the first pattern of `PAGE_TITLES` that the path matches.
unfoldable pub current_title : Text → Text
current_title pathname =
    if text_eq pathname (text "/admin") || text_eq pathname (text "/admin/")
    then text "仪表盘"
    else if starts_with pathname (text "/admin/batches/new")
    then text "新建批次"
    else if starts_with pathname (text "/admin/batches/") && digit_first (drop 15 pathname)
    then text "批次详情"
    else if starts_with pathname (text "/admin/batches")
    then text "批次管理"
    else if starts_with pathname (text "/admin/credentials")
    then text "凭证管理"
    else if starts_with pathname (text "/admin/logs")
    then text "兑换记录"
    else if starts_with pathname (text "/admin/faq")
    then text "兑换须知"
    else if starts_with pathname (text "/admin/settings")
    then text "站点设置"
    else text "管理后台"
