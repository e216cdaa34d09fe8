-- ===== src/Redeem/Submit/Release.antt =====
-- The redeem form is free again after every submission, whatever the server and the archive answer.
use cdk_system.Base.{ℕ, ◌-◌, ◌≤◌, ◌≡◌, refl, ap, ◌∙◌, true, false, Option, none, some, List, arith}
use cdk_system.Json.{Json}
use cdk_system.Api.{Settled}
use cdk_system.Redeem.Archive.{RedeemBatchItem, Archive}
use cdk_system.Redeem.Submit.{
  RedeemBatchResponse, one, many, redeem_settled, redeem_batch_settled, archive_settled,
  submit_done,
}
use cdk_system.Redeem.Submit.Runs.{
  Wait, idle, for_answer, for_archive, Form, wait_for_archive, Reach, next, answer_one, answer_many,
  packed, is_busy, Reach-loading,
}

-- How everything that a submission can wait for turns out.
pub record Outcomes : Type 0 where
  pub single : Settled Json
  pub batch : Settled RedeemBatchResponse
  pub archive : Settled Archive

abbrev settle_wait : Outcomes → Wait → Form → Form
settle_wait o idle f = f
settle_wait o (for_answer (one uid code)) f = record {
  tab = (redeem_settled o.single f.tab).0;
  wait = idle;
}
settle_wait o (for_answer (many uid codes)) f = record {
  tab = (redeem_batch_settled o.batch f.tab).0;
  wait = wait_for_archive (redeem_batch_settled o.batch f.tab).2;
}
settle_wait o for_archive f = record {
  tab = submit_done (archive_settled true o.archive f.tab).0;
  wait = idle;
}

-- What the form waits for arrives.
unfoldable pub settle_one : Outcomes → Form → Form
settle_one o f = settle_wait o f.wait f

settle_wait-Reach :
    (o : Outcomes) (w : Wait) (f : Form) → f.wait ≡ w → Reach f → Reach (settle_wait o w f)
settle_wait-Reach o idle f e r = r
settle_wait-Reach o (for_answer (one uid code)) f e r = next r (answer_one f uid code o.single e)
settle_wait-Reach o (for_answer (many uid codes)) f e r = next r (answer_many f uid codes o.batch e)
settle_wait-Reach o for_archive f e r = next r (packed f o.archive e)

settle_one-Reach : (o : Outcomes) (f : Form) → Reach f → Reach (settle_one o f)
unfolding settle_one
settle_one-Reach o f r = settle_wait-Reach o f.wait f refl r

-- How many answers are still to come at most.
abbrev answers_left : Wait → ℕ
answers_left idle = 0
answers_left for_archive = 1
answers_left (for_answer r) = 2

archive_left : (x : Option (List RedeemBatchItem)) → answers_left (wait_for_archive x) ≤ 1
archive_left none = omega arith
archive_left (some results) = omega arith

settle_wait-answers_left :
    (o : Outcomes) (w : Wait) (f : Form)
    → f.wait ≡ w
    → answers_left (settle_wait o w f).wait ≤ answers_left w - 1
settle_wait-answers_left o idle f e = rw e (omega arith)
settle_wait-answers_left o (for_answer (one uid code)) f e = omega arith
settle_wait-answers_left o (for_answer (many uid codes)) f e =
    archive_left (redeem_batch_settled o.batch f.tab).2
settle_wait-answers_left o for_archive f e = omega arith

settle_one-answers_left :
    (o : Outcomes) (f : Form) → answers_left (settle_one o f).wait ≤ answers_left f.wait - 1
unfolding settle_one
settle_one-answers_left o f = settle_wait-answers_left o f.wait f refl

answers_left-le : (w : Wait) → answers_left w ≤ 2
answers_left-le idle = omega arith
answers_left-le for_archive = omega arith
answers_left-le (for_answer r) = omega arith

idle_of_none_left : (w : Wait) → answers_left w ≤ 0 → w ≡ idle
idle_of_none_left idle h = refl
idle_of_none_left for_archive h = absurd (omega arith)
idle_of_none_left (for_answer r) h = absurd (omega arith)

-- From every reachable state of the form, however the requests and the packing turn out, at most two
-- answers lead to a reachable state in which no submission runs and the button can be clicked again.
pub Reach-settle_one :
    (o : Outcomes) (f : Form)
    → Reach f
    → Reach (settle_one o (settle_one o f))
      × ((settle_one o (settle_one o f)).wait ≡ idle)
      × ((settle_one o (settle_one o f)).tab.loading ≡ false)
Reach-settle_one o f r =
    let g = settle_one o (settle_one o f) in
    let reached = settle_one-Reach o (settle_one o f) (settle_one-Reach o f r) in
    let free = idle_of_none_left g.wait (
      omega (
        arith,
        settle_one-answers_left o (settle_one o f),
        settle_one-answers_left o f,
        answers_left-le f.wait,
      )) in
    (reached, free, Reach-loading g reached ∙ ap is_busy free)
