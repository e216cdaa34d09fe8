-- ===== src/Admin/Settings/Laws.antt =====
-- What the form of the settings sends, in every state that it can reach.
use cdk_system.Base.{
  ℕ, suc, ◌<◌, ◌≤◌, ◌≡◌, ◌⊎◌, refl, ◌∙◌, ap, sym, subst, true, false, Option, none, some, [], ◌∷◌,
  Text, trim, code_points, length, is_empty, ltb, ◌==◌, arith, Bool-cases, inl, inr,
}
use mathlib.Core.Option.{some-injective}
use cdk_system.Api.{File, resolved, rejected}
use cdk_system.Api.Endpoints.{UpdateSiteSettingsInput}
use cdk_system.Admin.Settings.Steps.{
  Session, Step, Reach, retitle, choose, check, remove, undo, submit, settle, start, next, IsLogo,
  NotBoth,
}
use cdk_system.Admin.Settings.{
  SiteSettings, Bitmap, is_allowed_logo_type, validate_logo, Form, initial_form, change_title,
  choose_file, file_checked, handle_remove_logo, drop_logo, undo_remove, handle_submit,
  submit_settled,
}

NotBoth-false : (o : Option File) → NotBoth o false
NotBoth-false none = tt
NotBoth-false (some file) = refl

handle_submit-logo :
    (f : Form)
    → ((handle_submit f).0.preview ≡ f.preview)
      × ((handle_submit f).0.logo_file ≡ f.logo_file)
      × ((handle_submit f).0.remove_logo ≡ f.remove_logo)
unfolding handle_submit
handle_submit-logo f = ground arith

validate_logo-bounds :
    (file : File) (image : Bitmap)
    → validate_logo file (some image) ≡ none
    → (is_allowed_logo_type file.mime ≡ true)
      × (file.size ≤ 2097152)
      × (image.width ≤ 2048)
      × (image.height ≤ 2048)
unfolding validate_logo
validate_logo-bounds file image h = ground arith

module _ (Decodes : File → Option Bitmap → Type 0) where
  pub record IsSoundForm (f : Form) : Type 0 where
    pub previewed : f.preview ≡ f.logo_file
    pub accepted : IsLogo Decodes f.logo_file
    pub exclusive : NotBoth f.logo_file f.remove_logo

  validate_logo-IsLogo :
      (file : File) (bitmap : Option Bitmap)
      → Decodes file bitmap
      → validate_logo file bitmap ≡ none
      → IsLogo Decodes (some file)
  unfolding validate_logo
  validate_logo-IsLogo file none d h = ground arith
  validate_logo-IsLogo file (some image) d h =
      let (mime, size, width, height) = validate_logo-bounds file image h in
      (mime, size, image, d, width, height)

  file_checked-IsSoundForm :
      (token : ℕ) (file : File) (error : Option Text) (f : Form)
      → (error ≡ none → IsLogo Decodes (some file))
      → IsSoundForm f
      → IsSoundForm (file_checked token file error f)
  file_checked-IsSoundForm token file (some error) f h s = elim (Bool-cases (token == f.token)) [
    | inl current ↦
        unfold file_checked in
        rw current
          (record { previewed = s.previewed; accepted = s.accepted; exclusive = s.exclusive })
    | inr late ↦ unfold file_checked in rw late s
  ]
  file_checked-IsSoundForm token file none f h s = elim (Bool-cases (token == f.token)) [
    | inl current ↦
        unfold file_checked in
        rw current (record { previewed = refl; accepted = h refl; exclusive = refl })
    | inr late ↦ unfold file_checked in rw late s
  ]

  with_logo :
      (f g : Form)
      → g.preview ≡ f.preview
      → g.logo_file ≡ f.logo_file
      → g.remove_logo ≡ f.remove_logo
      → IsSoundForm f
      → IsSoundForm g
  with_logo f g p l r s = record {
    previewed = p ∙ s.previewed ∙ sym l;
    accepted = subst (IsLogo Decodes) (sym l) s.accepted;
    exclusive =
        subst (λ x. NotBoth x g.remove_logo) (sym l)
          (subst (NotBoth f.logo_file) (sym r) s.exclusive);
  }

  drop_logo-IsSoundForm :
      (o : Option File) (f : Form) → f.logo_file ≡ o → IsSoundForm f → IsSoundForm (drop_logo o f)
  drop_logo-IsSoundForm (some file) f e s = record {
    previewed = refl;
    accepted = tt;
    exclusive = tt;
  }
  drop_logo-IsSoundForm none f e s = record {
    previewed = s.previewed;
    accepted = s.accepted;
    exclusive = subst (λ o. NotBoth o true) (sym e) tt;
  }

  Step-IsSoundForm : {s t : Session} → Step Decodes s t → IsSoundForm s.form → IsSoundForm t.form
  unfolding change_title choose_file undo_remove submit_settled handle_remove_logo
  Step-IsSoundForm (retitle title s) h = with_logo s.form _ refl refl refl h
  Step-IsSoundForm (choose none s) h = with_logo s.form _ refl refl refl h
  Step-IsSoundForm (choose (some file) s) h = with_logo s.form _ refl refl refl h
  Step-IsSoundForm (check s before after token file bitmap d e) h =
      file_checked-IsSoundForm token file (validate_logo file bitmap) s.form
        (validate_logo-IsLogo file bitmap d) h
  Step-IsSoundForm (remove s) h =
      drop_logo-IsSoundForm s.form.logo_file
        (record s.form { token = suc s.form.token; form_error = none }) refl
        (with_logo s.form _ refl refl refl h)
  Step-IsSoundForm (undo s) h = record {
    previewed = h.previewed;
    accepted = h.accepted;
    exclusive = NotBoth-false s.form.logo_file;
  }
  Step-IsSoundForm (submit s) h =
      let (p, l, r) = handle_submit-logo s.form in with_logo s.form _ p l r h
  Step-IsSoundForm (settle (resolved settings) c s) h = record {
    previewed = refl;
    accepted = tt;
    exclusive = tt;
  }
  Step-IsSoundForm (settle (rejected e) c s) h = with_logo s.form _ refl refl refl h

  pub Reach-IsSoundForm :
      {settings : SiteSettings} (s : Session) → Reach Decodes settings s → IsSoundForm s.form
  Reach-IsSoundForm s start =
      unfold initial_form in record { previewed = refl; accepted = tt; exclusive = tt }
  Reach-IsSoundForm s (next {s = q} r st) = Step-IsSoundForm st (Reach-IsSoundForm q r)

abbrev pub sent_input : Form → UpdateSiteSettingsInput
sent_input f = record {
  site_title = trim f.site_title;
  logo = f.logo_file;
  remove_logo = f.remove_logo;
}

-- Each branch of a submission.
pub handle_submit-branches :
    (f : Form)
    → ((handle_submit f).1 ≡ none)
      ⊎ ((is_empty (trim f.site_title) ≡ false)
          × (code_points (trim f.site_title) ≤ 100)
          × (handle_submit f ≡ (
            record f { token = suc f.token; saving = true; form_error = none },
            some (sent_input f),
          )))
handle_submit-branches f = elim (Bool-cases (is_empty (trim f.site_title))) [
  | inl untitled ↦ inl (unfold handle_submit in rw untitled refl)
  | inr titled ↦ elim (Bool-cases (ltb 100 (code_points (trim f.site_title)))) [
    | inl long ↦ inl (unfold handle_submit in rw (titled, long) refl)
    | inr short ↦ inr (titled, ground arith, unfold handle_submit in rw (titled, short) refl)
  ]
]

handle_submit-input :
    (f g : Form) (input : UpdateSiteSettingsInput)
    → handle_submit f ≡ (g, some input)
    → (is_empty (trim f.site_title) ≡ false)
      × (code_points (trim f.site_title) ≤ 100)
      × (input ≡ sent_input f)
handle_submit-input f g input h =
    let e : (handle_submit f).1 ≡ some input = ap (λ x. x.1) h in
    elim (handle_submit-branches f) [
      | inl stopped ↦ let clash = sym stopped ∙ e in cc
      | inr (titled, short, sent) ↦ (titled, short, some-injective _ _ (sym e ∙ ap (λ x. x.1) sent))
    ]

length_of_full : (t : Text) → is_empty t ≡ false → 0 < length t
length_of_full [] h = cc
length_of_full (c ∷ t) h = omega arith

-- An update that the server takes, for the title that the field holds.
abbrev pub IsUpdate :
    (Decodes : File → Option Bitmap → Type 0) → Text → UpdateSiteSettingsInput → Type 0
IsUpdate Decodes title input =
    (input.site_title ≡ trim title)
    × (0 < length input.site_title)
    × (code_points input.site_title ≤ 100)
    × IsLogo Decodes input.logo
    × NotBoth input.logo input.remove_logo

-- In every state that the form can reach, whatever files were chosen and removed and in whatever
-- order their checks ended, a submission sends the title of the field without the white space around
-- it, of 1 to 100 characters, a logo only if it is a PNG or JPEG file of at most 2 MiB that the
-- browser could read as an image of at most 2048 by 2048 pixels, and never a new logo together with a
-- removal.
pub handle_submit-IsUpdate :
    (Decodes : File → Option Bitmap → Type 0) {settings : SiteSettings} (s : Session) (g : Form)
    (input : UpdateSiteSettingsInput)
    → Reach Decodes settings s
    → handle_submit s.form ≡ (g, some input)
    → IsUpdate Decodes s.form.site_title input
handle_submit-IsUpdate Decodes s g input r h =
    let sound = Reach-IsSoundForm Decodes s r in
    let (full, short, e) = handle_submit-input s.form g input h in
    subst (IsUpdate Decodes s.form.site_title) (sym e)
      (refl, length_of_full (trim s.form.site_title) full, short, sound.accepted, sound.exclusive)
