-- ===== src/Redeem/Delivery.antt =====
-- The redeem form hands its redemptions to the page, `<RedeemTab onSuccess={handleRedeemSuccess} />`
-- in web/src/pages/redeem.tsx: what the form does outside itself, done to the history of the page.
pub mod Laws
pub mod Clicks
use cdk_system.Base.{ℕ, zero, suc, true, Option, none, some, List, [], ◌∷◌, Text}
use cdk_system.Json.{Json}
use cdk_system.Storage.{Storage}
use cdk_system.Redeem.Archive.{RedeemBatchItem}
use cdk_system.Redeem.Submit.{Effect, on_success, toast_success, toast_warning, download_blob}
use cdk_system.Redeem.History.{Page, handle_redeem_success}

-- A click on the button that shows an item of a batch again; an item without a redemption has none.
unfoldable pub view_item : RedeemBatchItem → List Effect
view_item item = elim item.redemption [ none ↦ [] | some result ↦ on_success result true ∷ [] ]

-- The id and the time of saving that the n-th new entry gets.
abbrev pub Stamps : Type 0
Stamps = ℕ → Text × Text

abbrev pub later : Stamps → Stamps
later stamps n = stamps (suc n)

module _ (parse : Text → Option Json) (stringify : Json → Text) (S : Storage) where
  -- The effects of a handler in their order; messages and downloads leave the page as it is.
  unfoldable pub deliver : Stamps → List Effect → Page parse stringify S → Page parse stringify S
  deliver stamps [] p = p
  deliver stamps (on_success result reveal ∷ effects) p =
      deliver (later stamps) effects
        (handle_redeem_success parse stringify S (stamps 0).0 (stamps 0).1 result reveal p)
  deliver stamps (toast_success message ∷ effects) p = deliver stamps effects p
  deliver stamps (toast_warning message ∷ effects) p = deliver stamps effects p
  deliver stamps (download_blob archive ∷ effects) p = deliver stamps effects p
