-- ===== src/Admin/Tests/Settings.antt =====
-- Runs of the settings form and of the order of the redemption notes.
use cdk_system.Base.{
  ℕ, ◌≡◌, ◌↔◌, refl, true, false, Option, none, some, [], ◌∷◌, Text, text, text_eq, trim,
  trim_start, is_space, code_points,
}
use cdk_system.Api.{File}
use cdk_system.Api.Endpoints.{UpdateSiteSettingsInput, reorder_faq}
use cdk_system.Admin.Settings.{
  SiteSettings, Bitmap, initial_form, choose_file, file_checked, validate_logo,
  is_allowed_logo_type, handle_remove_logo, handle_submit, favicon_href,
}
use cdk_system.Admin.Settings.Steps.{Session, Reach, start, next, choose, check, started}
use cdk_system.Admin.Settings.Laws.{IsUpdate, handle_submit-IsUpdate}
use cdk_system.Admin.Settings.Icon.{
  Icon, link_of, delivered_href, set_icons, set_icons-last, Shows, address,
}
use cdk_system.Admin.Settings.Checks.{file_checked-handle_remove_logo}
use cdk_system.Admin.Faq.{FaqItem, Page, initial_page, up, down, move}
use cdk_system.Admin.Faq.Laws.{move-exchanged}
use cdk_system.Admin.Faq.Shown.{NoteRow, note_row, note_rows}
use cdk_system.Admin.Faq.Arrows.{move-note_rows}

abbrev settings : SiteSettings
settings = record { site_title = text "Codes"; has_logo = false; logo_url = []; updated_at = [] }

abbrev logo : File
logo = record { name = text "logo.png"; mime = text "image/png"; size = 900 }

-- A logo has been chosen, and its check runs.
abbrev choosing : Session
choosing = record {
  form = choose_file (some logo) (initial_form settings);
  checks = started (some logo) 1;
}

-- Every file decodes to this image.
abbrev small : Bitmap
small = record { width = 64; height = 64 }

abbrev Decodes : File → Option Bitmap → Type 0
Decodes file bitmap = bitmap ≡ some small

choosing-Reach : Reach Decodes settings choosing
unfolding initial_form choose_file
choosing-Reach = next start (choose (some logo) _)

-- The check has ended well.
abbrev chosen : Session
chosen = record {
  form = file_checked 1 logo (validate_logo logo (some small)) choosing.form;
  checks = [];
}

chosen-Reach : Reach Decodes settings chosen
chosen-Reach = next choosing-Reach (check choosing [] [] 1 logo (some small) refl refl)

abbrev sent : UpdateSiteSettingsInput
sent = record { site_title = text "Codes"; logo = some logo; remove_logo = false }

handle_submit-IsUpdate_example : IsUpdate Decodes chosen.form.site_title sent
unfolding initial_form choose_file file_checked validate_logo is_allowed_logo_type text text_eq
    handle_submit trim trim_start is_space code_points
handle_submit-IsUpdate_example =
    handle_submit-IsUpdate Decodes chosen (handle_submit chosen.form).0 sent chosen-Reach refl

file_checked-handle_remove_logo_example :
    file_checked 1 logo none (handle_remove_logo choosing.form) ≡ handle_remove_logo choosing.form
file_checked-handle_remove_logo_example =
    file_checked-handle_remove_logo choosing [] [] 1 logo none choosing-Reach refl

abbrev note : ℕ → FaqItem
note id = record { id = id; sort_order = id; title = text "t"; content = text "c"; created_at = [] }

abbrev notes : Page
notes = record initial_page { items = some (note 1 ∷ note 2 ∷ note 3 ∷ []) }

move-exchanged_example :
    (move 1 down notes ≡ (
      record notes { items = some (note 1 ∷ note 3 ∷ note 2 ∷ []) },
      some (reorder_faq (1 ∷ 3 ∷ 2 ∷ [])),
    ))
    × (move 2 up notes ≡ move 1 down notes)
move-exchanged_example = move-exchanged notes (note 1 ∷ []) (note 2) (note 3) [] refl

abbrev second_row : NoteRow
second_row = note_row 3 1 (note 2)

move-note_rows_example :
    ((second_row.up_disabled ≡ true) ↔ (move 1 up notes ≡ (notes, none)))
    × ((second_row.down_disabled ≡ true) ↔ (move 1 down notes ≡ (notes, none)))
unfolding note_rows
move-note_rows_example = move-note_rows notes (note 1 ∷ note 2 ∷ note 3 ∷ []) 1 second_row refl refl

abbrev delivered : Option Icon
delivered = some (record { href = some (text "/vite.svg"); default_href = none })

set_icons-last_example :
    (shown : Text) × ((link_of (
        set_icons
          (record settings { has_logo = true; logo_url = text "/a.png" } ∷ settings ∷ [])
          delivered)).href
      ≡ some shown)
    × Shows settings (text "/vite.svg") shown
unfolding text
set_icons-last_example =
    set_icons-last (record settings { has_logo = true; logo_url = text "/a.png" } ∷ []) settings
      delivered (text "/vite.svg") (address _ _)

-- The icon is the delivered one again.
favicon_href-delivered : favicon_href (delivered_href delivered) settings ≡ text "/vite.svg"
unfolding favicon_href delivered_href text
favicon_href-delivered = refl
