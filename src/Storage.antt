-- ===== src/Storage.antt =====
-- The Web Storage interface of the browser, `localStorage` and `sessionStorage`.
use cdk_system.Base.{◌≡◌, Option, some, Text}

-- A result `none` is an exception: storage that is switched off, or whose quota is used up.
pub record Storage : Type 1 where
  pub State : Type 0
  pub get_item : State → Text → Option (Option Text)
  pub set_item : State → Text → Text → Option State
  pub remove_item : State → Text → Option State

-- An item that has been written is read back.
pub record IsLawful (S : Storage) : Type 0 where
  pub get-set :
      (s : S.State) (key value : Text) {s' : S.State}
      → S.set_item s key value ≡ some s'
      → S.get_item s' key ≡ some (some value)
