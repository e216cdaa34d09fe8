-- ===== src/Redeem/Submit/Runs.antt =====
-- The redeem form as a machine: the user's events and the answers, in any order that the browser
-- allows. The submit button is disabled while a submission runs, which also stops the Enter key.
use cdk_system.Base.{
  ◌≡◌, refl, ◌∙◌, ap, Bool, true, false, Option, none, some, List, [], ◌∷◌, Text, arith,
}
use cdk_system.Json.{Json}
use cdk_system.Api.{Settled, resolved, rejected}
use cdk_system.Redeem.Archive.{RedeemBatchItem, Archive}
use cdk_system.Redeem.Submit.{
  RedeemBatchResponse, Tab, initial_tab, change_user_id, change_code_input, handle_paste,
  Redemption, one, many, handle_submit, redeem_settled, redeem_batch_settled, download_archive,
  archive_settled, submit_done,
}
use cdk_system.Redeem.Submit.Laws.{IsSubmission, handle_submit-IsSubmission}

-- What the running submission waits for.
pub data Wait : Type 0 where
  idle : Wait
  for_answer : Redemption → Wait
  for_archive : Wait

pub record Form : Type 0 where
  pub tab : Tab
  pub wait : Wait

abbrev wait_of : Option Redemption → Wait
wait_of none = idle
wait_of (some r) = for_answer r

abbrev pub wait_for_archive : Option (List RedeemBatchItem) → Wait
wait_for_archive none = idle
wait_for_archive (some results) = for_archive

pub data Step : Form → Form → Type 0 where
  type_user : (value : Text) (f : Form) → Step f (record f { tab = change_user_id value f.tab })
  type_code : (value : Text) (f : Form) → Step f (record f { tab = change_code_input value f.tab })
  paste : (clip : Option Text) (f : Form) → Step f (record f { tab = handle_paste clip f.tab })
  submit :
      (f : Form)
      → f.tab.loading ≡ false
      → Step f (record { tab = (handle_submit f.tab).0; wait = wait_of (handle_submit f.tab).1 })
  answer_one :
      (f : Form) (uid code : Text) (answer : Settled Json)
      → f.wait ≡ for_answer (one uid code)
      → Step f (record { tab = (redeem_settled answer f.tab).0; wait = idle })
  answer_many :
      (f : Form) (uid : Text) (codes : List Text) (answer : Settled RedeemBatchResponse)
      → f.wait ≡ for_answer (many uid codes)
      → Step f (record {
        tab = (redeem_batch_settled answer f.tab).0;
        wait = wait_for_archive (redeem_batch_settled answer f.tab).2;
      })
  packed :
      (f : Form) (archive : Settled Archive)
      → f.wait ≡ for_archive
      → Step f (record { tab = submit_done (archive_settled true archive f.tab).0; wait = idle })
  download : (f : Form) → Step f (record f { tab = (download_archive f.tab).0 })
  downloaded :
      (f : Form) (archive : Settled Archive)
      → Step f (record f { tab = (archive_settled false archive f.tab).0 })

pub data Reach : Form → Type 0 where
  start : Reach (record { tab = initial_tab; wait = idle })
  next : {f g : Form} → Reach f → Step f g → Reach g

abbrev pub is_busy : Wait → Bool
is_busy idle = false
is_busy _ = true

loading_of :
    (t : Tab) (x : Tab × Option Redemption)
    → t.loading ≡ false
    → IsSubmission t x
    → x.0.loading ≡ is_busy (wait_of x.1)
loading_of t (t', none) h s = ap (λ u. u.loading) s.1 ∙ h
loading_of t (t', some r) h s = ap (λ u. u.loading) s.0

handle_submit-loading :
    (t : Tab)
    → t.loading ≡ false
    → (handle_submit t).0.loading ≡ is_busy (wait_of (handle_submit t).1)
handle_submit-loading t h = loading_of t (handle_submit t) h (handle_submit-IsSubmission t)

redeem_batch_settled-loading :
    (answer : Settled RedeemBatchResponse) (t : Tab)
    → t.loading ≡ true
    → (redeem_batch_settled answer t).0.loading
      ≡ is_busy (wait_for_archive (redeem_batch_settled answer t).2)
unfolding redeem_batch_settled
redeem_batch_settled-loading (rejected e) t h = refl
redeem_batch_settled-loading (resolved answer) t h = ground arith

handle_paste-loading : (clip : Option Text) (t : Tab) → (handle_paste clip t).loading ≡ t.loading
unfolding handle_paste
handle_paste-loading none t = refl
handle_paste-loading (some []) t = refl
handle_paste-loading (some (c ∷ s)) t = refl

archive_settled-loading :
    (archive : Settled Archive) (t : Tab) → (archive_settled false archive t).0.loading ≡ t.loading
unfolding archive_settled
archive_settled-loading (resolved a) t = refl
archive_settled-loading (rejected e) t = refl

Step-loading :
    {f g : Form} → Step f g → f.tab.loading ≡ is_busy f.wait → g.tab.loading ≡ is_busy g.wait
unfolding change_user_id change_code_input redeem_settled submit_done download_archive
Step-loading (type_user value f) h = h
Step-loading (type_code value f) h = h
Step-loading (paste clip f) h = handle_paste-loading clip f.tab ∙ h
Step-loading (submit f ready) h = handle_submit-loading f.tab ready
Step-loading (answer_one f uid code (resolved result) w) h = refl
Step-loading (answer_one f uid code (rejected e) w) h = refl
Step-loading (answer_many f uid codes answer w) h =
    redeem_batch_settled-loading answer f.tab (h ∙ ap is_busy w)
Step-loading (packed f archive w) h = refl
Step-loading (download f) h = h
Step-loading (downloaded f archive) h = archive_settled-loading archive f.tab ∙ h

-- In every state that the form can reach, in whatever order the user's events and the answers come,
-- the form shows that it loads exactly while a submission waits for its answer or its archive. So
-- no second submission starts while one runs, and the button is free again after each.
pub Reach-loading : (f : Form) → Reach f → f.tab.loading ≡ is_busy f.wait
Reach-loading f start = unfold initial_tab in refl
Reach-loading f (next {f = e} r st) = Step-loading st (Reach-loading e r)
