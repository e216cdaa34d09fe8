-- ===== src/Admin/Batches/Laws.antt =====
-- What the page of one batch shows.
use cdk_system.Base.{
  ℕ, ◌<◌, ◌≡◌, ◌≢◌, refl, ◌∙◌, sym, ◌⊎◌, ◌↔◌, inl, inr, true, false, Text, text, text_eq,
  text_eq_iff, arith, if◌then◌else◌, leb, ltb, Bool-cases,
}
use cdk_system.Api.{Settled, resolved, rejected, Failure}
use cdk_system.Admin.Batches.{
  Batch, BatchCounts, Codes, Page, batch_loaded, load_codes, codes_loaded, code_toggled, missing,
  view, CodeBadge, disabled, used_up, partly_used, available, code_badge,
}

-- What the user and the server can do; the answers come in any order.
pub data Step : Page → Page → Type 0 where
  batch_answer : (a : Settled (Batch × BatchCounts)) (p : Page) → Step p (batch_loaded a p)
  codes_answer : (a : Settled Codes) (p : Page) → Step p (codes_loaded a p)
  toggle_code : (a : Settled Text) (p : Page) → Step p (code_toggled a p)
  filter_by : (state : Text) (p : Page) → Step p (load_codes (record p { state = state; page = 1 }))
  go_to : (n : ℕ) (p : Page) → Step p (load_codes (record p { page = n }))

pub data Reach : Page → Page → Type 0 where
  here : {p : Page} → Reach p p
  next : {p q r : Page} → Reach p q → Step q r → Reach p r

Step-not_found : {p q : Page} → Step p q → p.not_found ≡ true → q.not_found ≡ true
unfolding batch_loaded codes_loaded code_toggled load_codes
Step-not_found (batch_answer (resolved (batch, counts)) p) h = h
Step-not_found (batch_answer (rejected e) p) h = refl
Step-not_found (codes_answer (resolved d) p) h = h
Step-not_found (codes_answer (rejected e) p) h = h
Step-not_found (toggle_code (resolved m) p) h = h
Step-not_found (toggle_code (rejected e) p) h = h
Step-not_found (filter_by state p) h = h
Step-not_found (go_to n p) h = h

Reach-not_found : {p q : Page} → Reach p q → p.not_found ≡ true → q.not_found ≡ true
Reach-not_found here h = h
Reach-not_found (next r st) h = Step-not_found st (Reach-not_found r h)

-- One failed request for the batch, whatever the failure, is final: in every state that the page
-- reaches from there it says that there is no batch, also when a later request for it succeeds.
pub view-batch_loaded_failed :
    (p q : Page) (e : Failure) → Reach (batch_loaded (rejected e) p) q → view q ≡ missing
unfolding view
view-batch_loaded_failed p q e r =
    let h : (batch_loaded (rejected e) p).not_found ≡ true = unfold batch_loaded in refl in
    rw (Reach-not_found r h) refl

disabled≢available : disabled ≡ available → ⊥
disabled≢available e = cc

disabled≢partly_used : disabled ≡ partly_used → ⊥
disabled≢partly_used e = cc

-- A code is shown as available or partly used exactly if it is not disabled and has uses left.
pub code_badge-redeemable :
    (status : Text) (use_count max_uses : ℕ)
    → ((code_badge status use_count max_uses ≡ available)
        ⊎ (code_badge status use_count max_uses ≡ partly_used))
      ↔ ((status ≢ text "disabled") × (use_count < max_uses))
unfolding code_badge
code_badge-redeemable status use_count max_uses =
    elim (Bool-cases (text_eq status (text "disabled"))) [
      | inl off ↦
          let e : status ≡ text "disabled" = (text_eq_iff status (text "disabled")).0 off in
          rw off (
            (λ h. elim h [
              | inl a ↦ absurd (disabled≢available a)
              | inr b ↦ absurd (disabled≢partly_used b)
            ]),
            λ (n, _). absurd (n e),
          )
      | inr on ↦
          let n : status ≢ text "disabled" = λ e.
            let t = (text_eq_iff status (text "disabled")).1 e in
            let clash : true ≡ false = sym t ∙ on in cc in
          rw on (λ h. (n, uses_left h), λ (_, u). uses_shown u)
    ]
  where
    badge : CodeBadge
    badge =
        if leb max_uses use_count
        then used_up
        else if ltb 0 use_count
        then partly_used
        else available

    uses_left : (badge ≡ available) ⊎ (badge ≡ partly_used) → use_count < max_uses
    uses_left h = ground arith

    uses_shown : use_count < max_uses → (badge ≡ available) ⊎ (badge ≡ partly_used)
    uses_shown u = ground arith
