-- ===== src/Redeem/Notes.antt =====
-- The redemption notes below the form, in `RedeemPage` of web/src/pages/redeem.tsx.
use cdk_system.Base.{◌≡◌, refl, Option, none, some, List, [], ◌∷◌, Text}
use cdk_system.Api.{Settled, resolved, rejected, error_message}
use cdk_system.Admin.Faq.{FaqItem}

pub record Notes : Type 0 where
  pub faq : Option (List FaqItem)
  pub faq_error : Option Text

unfoldable pub initial_notes : Notes
initial_notes = record { faq = none; faq_error = none }

-- The answer to `api.publicFaq`; every rejection of it is an `Error`.
unfoldable pub notes_settled : Settled (List FaqItem) → Notes → Notes
notes_settled (resolved items) n = record n { faq = some items }
notes_settled (rejected e) n = record n { faq_error = some (error_message e) }

-- What is shown: three grey bars, a message, or the notes.
pub data NotesView : Type 0 where
  skeletons : NotesView
  failed : Text → NotesView
  accordion : List FaqItem → NotesView

abbrev shown_notes : List FaqItem → Option Text → NotesView
shown_notes items none = accordion items
shown_notes items (some []) = accordion items
shown_notes items (some (c ∷ s)) = failed (c ∷ s)

unfoldable pub notes_view : Notes → NotesView
notes_view n = elim n.faq [ none ↦ skeletons | some items ↦ shown_notes items n.faq_error ]

-- What the section shows once its one request has been answered: the notes, or, after a failure, the same
-- bars as before the answer, whatever the message; so the message is never shown.
pub notes_view-notes_settled :
    (answer : Settled (List FaqItem))
    → notes_view (notes_settled answer initial_notes)
      ≡ elim answer [ resolved items ↦ accordion items | rejected e ↦ notes_view initial_notes ]
unfolding notes_view notes_settled initial_notes
notes_view-notes_settled (resolved items) = refl
notes_view-notes_settled (rejected e) = refl
