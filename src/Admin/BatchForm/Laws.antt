-- ===== src/Admin/BatchForm/Laws.antt =====
-- What the form for a new batch sends.
use cdk_system.Base.{
  ◌≡◌, ◌≢◌, refl, ◌∙◌, ap, sym, subst, Bool, true, false, ◌&&◌, not, ◌⊎◌, inl, inr, none, some,
  List, [], ◌∷◌, ◌++◌, Text, text, text_or, trim, is_empty, and_split, is_given, starts_with,
  Bool-cases, if◌then◌else◌, arith,
}
use mathlib.Core.Option.{some-injective}
use cdk_system.Json.{Json}
use cdk_system.Admin.BatchForm.{
  BatchInput, Page, is_available, name_errors, parse_errors, webhook_errors, plan_errors,
  credential_errors, sent_input, payload_errors, validate, handle_submit,
}

append-empty : (xs ys : List Text) → is_empty (xs ++ ys) ≡ (is_empty xs && is_empty ys)
append-empty [] ys = refl
append-empty (x ∷ xs) ys = refl

full_of : (t message : Text) → is_empty (if is_empty t then message ∷ [] else []) ≡ true → t ≢ []
full_of [] message h = cc
full_of (c ∷ t) message h = λ e. cc

parsed_of :
    (t : Text) (r : Text ⊎ Json)
    → is_empty (if is_empty t then [] else parse_errors r) ≡ true
    → (t ≡ []) ⊎ ((v : Json) × (r ≡ inr v))
parsed_of [] r h = inl refl
parsed_of (c ∷ t) (inl message) h = cc
parsed_of (c ∷ t) (inr v) h = inr (v, refl)

secure_of :
    (url message : Text) (secure : Bool)
    → is_empty (if not (is_empty url) && not secure then message ∷ [] else []) ≡ true
    → (url ≡ []) ⊎ (secure ≡ true)
secure_of [] message secure h = inl refl
secure_of (c ∷ url) message true h = inr refl
secure_of (c ∷ url) message false h = cc

stocked_of :
    (p : Page) (plan : Text)
    → is_empty (plan_errors p plan) ≡ true
    → (p.plans_loading ≡ false)
      × (is_given p.plans_error ≡ false)
      × (is_empty plan ≡ false)
      × (is_available plan p.plans ≡ true)
stocked_of p plan h = ground arith

ne_nil_of_full : (t : Text) → is_empty t ≡ false → t ≢ []
ne_nil_of_full [] h = cc
ne_nil_of_full (c ∷ t) h = λ e. cc

module _ (parse : Text → Text ⊎ Json) where
  -- A form that may be sent: it has a name; its content is blank or parses; its address, if it has
  -- one, is an https address; and if credentials are assigned, the plans are there and the plan
  -- that is chosen is in stock.
  abbrev pub IsValidBatch : Page → Type 0
  IsValidBatch p =
      (trim p.form.name ≢ [])
      × ((trim p.form.payload_json ≡ []) ⊎ ((v : Json) × (parse p.form.payload_json ≡ inr v)))
      × ((p.form.webhook_url ≡ []) ⊎ (starts_with p.form.webhook_url (text "https://") ≡ true))
      × ((p.form.assign_credential ≡ false)
          ⊎ ((p.plans_loading ≡ false)
              × (is_given p.plans_error ≡ false)
              × (trim p.form.credential_plan_type ≢ [])
              × (is_available (trim p.form.credential_plan_type) p.plans ≡ true)))

  valid_of : (p : Page) → is_empty (validate parse p) ≡ true → IsValidBatch p
  unfolding validate
  valid_of p h =
      let (name, rest) = and_split _ _ (sym (append-empty (name_errors p.form) _) ∙ h) in
      let (payload, more) =
        and_split _ _ (sym (append-empty (payload_errors parse p.form) _) ∙ rest) in
      let (webhook, plan) = and_split _ _ (sym (append-empty (webhook_errors p.form) _) ∙ more) in
      (
        full_of (trim p.form.name) _ name,
        parsed_of (trim p.form.payload_json) (parse p.form.payload_json) payload,
        secure_of p.form.webhook_url _ _ webhook,
        assigned (Bool-cases p.form.assign_credential) plan,
      )
    where
      assigned :
          (p.form.assign_credential ≡ true) ⊎ (p.form.assign_credential ≡ false)
          → is_empty (credential_errors p) ≡ true
          → (p.form.assign_credential ≡ false)
            ⊎ ((p.plans_loading ≡ false)
                × (is_given p.plans_error ≡ false)
                × (trim p.form.credential_plan_type ≢ [])
                × (is_available (trim p.form.credential_plan_type) p.plans ≡ true))
      assigned (inr unwanted) e = inl unwanted
      assigned (inl wanted) e =
          let (a, b, c, d) = stocked_of p (trim p.form.credential_plan_type) (ground arith) in
          inr (a, b, ne_nil_of_full (trim p.form.credential_plan_type) c, d)

  -- What is sent for a form: the trimmed name, a content that parses, and a plan that is in stock
  -- exactly if credentials are assigned.
  abbrev pub IsBatch : Page → BatchInput → Type 0
  IsBatch p input =
      (input.name ≡ trim p.form.name)
      × ((v : Json) × (parse input.payload_json ≡ inr v))
      × (if p.form.assign_credential
          then is_available input.credential_plan_type p.plans ≡ true
          else input.credential_plan_type ≡ [])

  handle_submit-branches :
      (p : Page)
      → ((handle_submit parse p).1 ≡ none)
        ⊎ ((is_empty (validate parse p) ≡ true)
            × ((handle_submit parse p).1 ≡ some (sent_input p.form)))
  handle_submit-branches p = elim (Bool-cases (is_empty (validate parse p))) [
    | inl fine ↦ inr (fine, unfold handle_submit in rw fine refl)
    | inr faulty ↦ inl (unfold handle_submit in rw faulty refl)
  ]

  payload_parses :
      (t : Text)
      → ((s : Text) (v : Json) → parse s ≡ inr v → parse (trim s) ≡ inr v)
      → ((v : Json) × (parse (text "{}") ≡ inr v))
      → (trim t ≡ []) ⊎ ((v : Json) × (parse t ≡ inr v))
      → (v : Json) × (parse (text_or (trim t) (text "{}")) ≡ inr v)
  payload_parses t blanks empty_object parsed = by_text (trim t) refl parsed
    where
      by_text :
          (u : Text)
          → trim t ≡ u
          → (trim t ≡ []) ⊎ ((v : Json) × (parse t ≡ inr v))
          → (v : Json) × (parse (text_or u (text "{}")) ≡ inr v)
      by_text [] e _ = empty_object
      by_text (c ∷ u) e (inl blank) = let clash : [] ≡ c ∷ u = sym blank ∙ e in cc
      by_text (c ∷ u) e (inr (v, parsed)) = (v, ap parse (sym e) ∙ blanks t v parsed)

  sent_plan :
      (p : Page)
      → IsValidBatch p
      → (if p.form.assign_credential
          then is_available (sent_input p.form).credential_plan_type p.plans ≡ true
          else (sent_input p.form).credential_plan_type ≡ [])
  unfolding sent_input
  sent_plan p (_, _, _, assigned) = elim (Bool-cases p.form.assign_credential) [
    | inr no_plan ↦ rw no_plan refl
    | inl wanted ↦ elim assigned [
      | inl none_wanted ↦ let clash : true ≡ false = sym wanted ∙ none_wanted in cc
      | inr (_, _, _, stocked) ↦ rw wanted stocked
    ]
  ]

  -- A request for a new batch is sent only for a form that may be sent, and it carries the trimmed
  -- name, a content that parses, and a plan that is in stock if credentials are assigned and none
  -- otherwise. `JSON.parse` reads `{}`, and blanks around a text do not matter to it.
  pub handle_submit-IsBatch :
      ((s : Text) (v : Json) → parse s ≡ inr v → parse (trim s) ≡ inr v)
      → ((v : Json) × (parse (text "{}") ≡ inr v))
      → (p : Page) (input : BatchInput) → (handle_submit parse p).1 ≡ some input
      → IsValidBatch p × IsBatch p input
  handle_submit-IsBatch blanks empty_object p input h = elim (handle_submit-branches p) [
    | inl stopped ↦ let clash : none ≡ some input = sym stopped ∙ h in cc
    | inr (fine, sent) ↦
        let valid = valid_of p fine in
        let (_, payload, _, _) = valid in
        (
          valid,
          subst (IsBatch p) (some-injective _ _ (sym sent ∙ h)) (
            unfold sent_input in refl,
            unfold sent_input in payload_parses p.form.payload_json blanks empty_object payload,
            sent_plan p valid,
          ),
        )
  ]
