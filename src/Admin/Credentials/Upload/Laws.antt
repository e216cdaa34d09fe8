-- ===== src/Admin/Credentials/Upload/Laws.antt =====
-- What the upload of credentials sends, and when.
use cdk_system.Base.{
  code_points, ◌≤◌, ◌<◌, ◌≡◌, ◌≢◌, subst, refl, ◌∙◌, sym, ap, ◌↔◌, Bool, true, false, ◌&&◌, ◌||◌,
  not, Option, none, some, [], ◌∷◌, Text, length, ltb, is_empty, any, All, Bool-cases, inl, inr,
  arith,
}
use mathlib.Core.Option.{some-injective}
use cdk_system.Api.{File}
use cdk_system.Admin.Credentials.Upload.{
  Upload, contains_control_character, plan_type, start_upload, handle_upload,
}

-- A plan name that the server takes: not empty, at most 100 characters, none of them a control
-- character.
abbrev pub IsPlanName : Text → Type 0
IsPlanName name =
    (0 < length name) × (code_points name ≤ 100) × All (λ c. (31 < c) × (c ≢ 127)) name

plain_sound : (s : Text) → contains_control_character s ≡ false → All (λ c. (31 < c) × (c ≢ 127)) s
unfolding contains_control_character any
plain_sound [] h = tt
plain_sound (c ∷ s) h = (ground arith, plain_sound s (ground arith))

plain_complete :
    (s : Text) → All (λ c. (31 < c) × (c ≢ 127)) s → contains_control_character s ≡ false
unfolding contains_control_character any
plain_complete [] e = refl
plain_complete (c ∷ s) ((low, other), es) = ground (arith, plain_complete s es)

not_empty : (name : Text) → (is_empty name ≡ false) ↔ (0 < length name)
not_empty [] = ground arith
not_empty (c ∷ s) = ground arith

-- The checks of the plan's name, in the order of the code.
taken : Text → Bool
taken name =
    not (is_empty name) && not (ltb 100 (code_points name) || contains_control_character name)

taken_iff : (name : Text) → (taken name ≡ true) ↔ IsPlanName name
unfolding taken
taken_iff name = (sound, complete)
  where
    sound : taken name ≡ true → IsPlanName name
    sound h = ((not_empty name).0 (ground arith), ground arith, plain_sound name (ground arith))

    complete : IsPlanName name → taken name ≡ true
    complete (some_units, short, plain) =
        let named = (not_empty name).1 some_units in
        let without = plain_complete name plain in rw (named, without) (ground arith)

start_refused :
    (u : Upload) (o : Option File) → taken (plan_type u) ≡ false → (start_upload o u).0 ≡ none
unfolding start_upload taken
start_refused u none h = refl
start_refused u (some file) h = ground arith

start_taken :
    (u : Upload) (file : File)
    → taken (plan_type u) ≡ true
    → (start_upload (some file) u).0 ≡ some (file, plan_type u)
unfolding start_upload taken
start_taken u file h = ground arith

start_none : (u : Upload) → (start_upload none u).0 ≡ none
unfolding start_upload
start_none u = refl

start_sound :
    (u : Upload) (o : Option File) (file : File) (name : Text)
    → (start_upload o u).0 ≡ some (file, name)
    → (o ≡ some file) × (plan_type u ≡ name) × IsPlanName name
start_sound u none file name h = let e = sym h ∙ start_none u in cc
start_sound u (some staged) file name h = elim (Bool-cases (taken (plan_type u))) [
  | inl good ↦
      let same : (staged, plan_type u) ≡ (file, name) =
        some-injective _ _ (sym (start_taken u staged good) ∙ h) in
      let named : plan_type u ≡ name = ap (λ p. p.1) same in
      (ap (λ p. some p.0) same, named, subst IsPlanName named ((taken_iff (plan_type u)).0 good))
  | inr bad ↦ let e = sym h ∙ start_refused u (some staged) bad in cc
]

-- The upload starts exactly if a file is staged and the trimmed name of the chosen or the new plan
-- is one that the server takes; it sends that file and that name.
pub handle_upload_iff :
    (u : Upload) (file : File) (name : Text)
    → ((handle_upload u).0 ≡ some (file, name))
      ↔ ((u.pending_upload ≡ some file) × (plan_type u ≡ name) × IsPlanName name)
unfolding handle_upload
handle_upload_iff u file name = (
  start_sound u u.pending_upload file name,
  λ (staged, e, fits).
      ap (λ o. (start_upload o u).0) staged
      ∙ start_taken u file (rw e ((taken_iff name).1 fits))
      ∙ ap (λ t. some (file, t)) e,
)
