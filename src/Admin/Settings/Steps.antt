-- ===== src/Admin/Settings/Steps.antt =====
-- The states that the form of web/src/pages/admin/site-settings.tsx can reach, with the checks of
-- chosen files that run.
use cdk_system.Base.{ℕ, ◌≤◌, ◌≡◌, Bool, true, false, Option, none, some, List, [], ◌∷◌, ◌++◌, Text}
use cdk_system.Api.{File, Settled}
use cdk_system.Admin.Settings.{
  SiteSettings, Context, Bitmap, is_allowed_logo_type, validate_logo, Form, initial_form,
  change_title, choose_file, file_checked, handle_remove_logo, undo_remove, handle_submit,
  submit_settled,
}

-- The form and the checks of files that have not ended, each with its token.
pub record Session : Type 0 where
  pub form : Form
  pub checks : List (ℕ × File)

abbrev pub started : Option File → ℕ → List (ℕ × File)
started none token = []
started (some file) token = (token, file) ∷ []

-- `Decodes file bitmap`: the browser can read the file as this bitmap, or fails to read it.
module _ (Decodes : File → Option Bitmap → Type 0) where
  -- What the user, the browser and the server can do. Checks end in any order, with any result that
  -- the check of that file can have.
  pub data Step : Session → Session → Type 0 where
    retitle : (title : Text) (s : Session) → Step s (record s { form = change_title title s.form })
    choose :
        (file : Option File) (s : Session)
        → Step s (record {
          form = choose_file file s.form;
          checks = s.checks ++ started file (choose_file file s.form).token;
        })
    check :
        (s : Session) (before after : List (ℕ × File)) (token : ℕ) (file : File)
        (bitmap : Option Bitmap)
        → Decodes file bitmap
        → s.checks ≡ before ++ ((token, file) ∷ after)
        → Step s (record {
          form = file_checked token file (validate_logo file bitmap) s.form;
          checks = before ++ after;
        })
    remove : (s : Session) → Step s (record s { form = handle_remove_logo s.form })
    undo : (s : Session) → Step s (record s { form = undo_remove s.form })
    submit : (s : Session) → Step s (record s { form = (handle_submit s.form).0 })
    settle :
        (answer : Settled SiteSettings) (c : Context) (s : Session)
        → Step s (record s { form = (submit_settled answer s.form c).0 })

  pub data Reach (settings : SiteSettings) : Session → Type 0 where
    start : Reach settings (record { form = initial_form settings; checks = [] })
    next : {s t : Session} → Reach settings s → Step s t → Reach settings t

  -- A logo that the server takes: a PNG or JPEG file of at most 2 MiB that the browser can read, as
  -- an image of at most 2048 by 2048 pixels.
  abbrev pub IsLogo : Option File → Type 0
  IsLogo none = Unit
  IsLogo (some file) =
      (is_allowed_logo_type file.mime ≡ true)
      × (file.size ≤ 2097152)
      × (image : Bitmap) × Decodes file (some image)
      × (image.width ≤ 2048)
      × (image.height ≤ 2048)

-- The removal of the logo is not asked for together with a new one.
abbrev pub NotBoth : Option File → Bool → Type 0
NotBoth none remove_logo = Unit
NotBoth (some file) remove_logo = remove_logo ≡ false
