-- ===== src/Admin/Settings/Checks.antt =====
-- Checks of a chosen file that end late.
use cdk_system.Base.{
  ℕ, suc, ◌<◌, ◌≤◌, ◌≡◌, refl, ◌∙◌, ap, sym, subst, Option, none, some, List, [], ◌∷◌, ◌++◌, Text,
  arith, All, inl, inr,
}
use cdk_system.Api.{File, resolved, rejected}
use cdk_system.Api.Endpoints.{UpdateSiteSettingsInput}
use cdk_system.Admin.Settings.{
  SiteSettings, Bitmap, Form, change_title, choose_file, file_checked, handle_remove_logo,
  drop_logo, undo_remove, handle_submit, submit_settled, validate_logo,
}
use cdk_system.Admin.Settings.Steps.{
  Session, Step, Reach, retitle, choose, check, remove, undo, submit, settle, start, next,
}
use cdk_system.Admin.Settings.Laws.{handle_submit-branches}

-- The checks that run hold tokens that the form has given out.
abbrev pub Given : ℕ → List (ℕ × File) → Type 0
Given token = All (λ (check : ℕ × File). check.0 ≤ token)

Given-later : (n m : ℕ) (checks : List (ℕ × File)) → n ≤ m → Given n checks → Given m checks
Given-later n m [] h g = tt
Given-later n m (c ∷ checks) h (g, gs) = (omega arith, Given-later n m checks h gs)

Given-append : (n : ℕ) (cs ds : List (ℕ × File)) → Given n cs → Given n ds → Given n (cs ++ ds)
Given-append n [] ds g h = h
Given-append n (c ∷ cs) ds (g, gs) h = (g, Given-append n cs ds gs h)

Given-without :
    (n : ℕ) (before after : List (ℕ × File)) (c : ℕ × File)
    → Given n (before ++ (c ∷ after))
    → (c.0 ≤ n) × Given n (before ++ after)
Given-without n [] after c (g, gs) = (g, gs)
Given-without n (b ∷ before) after c (g, gs) =
    let (now, later) = Given-without n before after c gs in (now, (g, later))

file_checked-token :
    (token : ℕ) (file : File) (error : Option Text) (f : Form)
    → (file_checked token file error f).token ≡ f.token
unfolding file_checked
file_checked-token token file (some error) f = ground arith
file_checked-token token file none f = ground arith

drop_logo-token : (o : Option File) (f : Form) → (drop_logo o f).token ≡ f.token
drop_logo-token none f = refl
drop_logo-token (some file) f = refl

handle_submit-token : (f : Form) → f.token ≤ (handle_submit f).0.token
unfolding handle_submit
handle_submit-token f = ground arith

Step-Given :
    {Decodes : File → Option Bitmap → Type 0} {s t : Session}
    → Step Decodes s t
    → Given s.form.token s.checks
    → Given t.form.token t.checks
unfolding change_title choose_file undo_remove submit_settled handle_remove_logo
Step-Given (retitle title s) g = g
Step-Given (choose none s) g =
    Given-append _ s.checks [] (Given-later _ _ s.checks (omega arith) g) tt
Step-Given (choose (some file) s) g =
    Given-append _ s.checks _ (Given-later _ _ s.checks (omega arith) g) (omega arith, tt)
Step-Given (check s before after token file bitmap d e) g =
    subst (λ n. Given n (before ++ after))
      (sym (file_checked-token token file (validate_logo file bitmap) s.form))
      (Given-without s.form.token before after (token, file) (subst (Given s.form.token) e g)).1
Step-Given (remove s) g =
    Given-later _ _ s.checks
      (omega (
        arith,
        drop_logo-token s.form.logo_file
            (record s.form { token = suc s.form.token; form_error = none }),
      ))
      g
Step-Given (undo s) g = g
Step-Given (submit s) g = Given-later _ _ s.checks (handle_submit-token s.form) g
Step-Given (settle (resolved settings) c s) g = g
Step-Given (settle (rejected e) c s) g = g

Reach-Given :
    {Decodes : File → Option Bitmap → Type 0} {settings : SiteSettings} (s : Session)
    → Reach Decodes settings s
    → Given s.form.token s.checks
Reach-Given s start = tt
Reach-Given s (next {s = q} r st) = Step-Given st (Reach-Given q r)

late :
    (token : ℕ) (file : File) (error : Option Text) (f : Form)
    → token < f.token
    → file_checked token file error f ≡ f
unfolding file_checked
late token file (some error) f h = ground arith
late token file none f h = ground arith

-- In every state that the form can reach, a check of a chosen file that still runs when the logo is
-- removed changes nothing when it ends, whatever its result: the removal stands.
pub file_checked-handle_remove_logo :
    {Decodes : File → Option Bitmap → Type 0} {settings : SiteSettings} (s : Session)
    (before after : List (ℕ × File)) (token : ℕ) (file : File) (error : Option Text)
    → Reach Decodes settings s
    → s.checks ≡ before ++ ((token, file) ∷ after)
    → file_checked token file error (handle_remove_logo s.form) ≡ handle_remove_logo s.form
file_checked-handle_remove_logo s before after token file error r e =
    let given =
      (Given-without s.form.token before after (token, file)
        (subst (Given s.form.token) e (Reach-Given s r))).0 in
    late token file error (handle_remove_logo s.form) (
      unfold handle_remove_logo in
      omega (
        arith,
        given,
        drop_logo-token s.form.logo_file
            (record s.form { token = suc s.form.token; form_error = none }),
      ))

sent_token :
    (f g : Form) (input : UpdateSiteSettingsInput)
    → handle_submit f ≡ (g, some input)
    → g.token ≡ suc f.token
sent_token f g input h = elim (handle_submit-branches f) [
  | inl stopped ↦ let clash : none ≡ some input = sym stopped ∙ ap (λ x. x.1) h in cc
  | inr (_, _, sent) ↦ ap (λ x. x.0.token) (sym h ∙ sent)
]

-- In every state that the form can reach, a check of a chosen file that still runs when a submission
-- starts changes nothing when it ends: what is shown stays what was sent.
pub file_checked-handle_submit :
    {Decodes : File → Option Bitmap → Type 0} {settings : SiteSettings} (s : Session)
    (before after : List (ℕ × File)) (token : ℕ) (file : File) (error : Option Text) (g : Form)
    (input : UpdateSiteSettingsInput)
    → Reach Decodes settings s
    → s.checks ≡ before ++ ((token, file) ∷ after)
    → handle_submit s.form ≡ (g, some input)
    → file_checked token file error g ≡ g
file_checked-handle_submit s before after token file error g input r e h =
    let given =
      (Given-without s.form.token before after (token, file)
        (subst (Given s.form.token) e (Reach-Given s r))).0 in
    late token file error g (omega (arith, given, sent_token s.form g input h))
