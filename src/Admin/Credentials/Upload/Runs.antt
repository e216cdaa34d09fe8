-- ===== src/Admin/Credentials/Upload/Runs.antt =====
-- The upload of credentials in every state that its dialog can reach,
-- web/src/pages/admin/credentials.tsx.
use cdk_system.Base.{
  ◌≡◌, refl, ◌∙◌, sym, subst, Bool, true, false, ◌||◌, Option, none, some, List, [], ◌∷◌, ◌++◌, map,
  Text, text, ends_with, lower, is_given, Bool-cases, Option-cases, inl, inr, arith, if◌then◌else◌,
}
use cdk_system.Api.{File, Settled, resolved, rejected}
use cdk_system.Admin.BatchForm.{CredentialPlan}
use cdk_system.Admin.Credentials.Upload.{
  UploadPlanMode, Upload, initial_upload, load_plans, plans_settled, change_plan_mode, choose_plan,
  change_new_plan, stage_upload, close_upload_dialog, start_upload, handle_upload, upload_settled,
}
use cdk_system.Admin.Credentials.Upload.Laws.{IsPlanName, handle_upload_iff}

-- The state of the dialog, with the uploads that run.
pub record Session : Type 0 where
  pub form : Upload
  pub running : List (File × Text)

abbrev pub started : Option (File × Text) → List (File × Text)
started none = []
started (some upload) = upload ∷ []

-- What the user and the server can do, in any order. The button that starts an upload is disabled
-- while one runs.
pub data Step : Session → Session → Type 0 where
  stage : (file : File) (s : Session) → Step s (record s { form = (stage_upload file s.form).1 })
  close : (s : Session) → Step s (record s { form = close_upload_dialog s.form })
  to_mode :
      (mode : UploadPlanMode) (s : Session)
      → Step s (record s { form = change_plan_mode mode s.form })
  to_plan : (o : Option Text) (s : Session) → Step s (record s { form = choose_plan o s.form })
  to_name : (name : Text) (s : Session) → Step s (record s { form = change_new_plan name s.form })
  plans :
      (a : Settled (Option (List CredentialPlan))) (s : Session)
      → Step s (record s { form = plans_settled a s.form })
  reload : (s : Session) → Step s (record s { form = load_plans s.form })
  confirm :
      (s : Session)
      → s.form.uploading ≡ false
      → Step s (record {
        form = (handle_upload s.form).1;
        running = s.running ++ started (handle_upload s.form).0;
      })
  answer :
      (s : Session) (before after : List (File × Text)) (upload : File × Text) (a : Settled Text)
      → s.running ≡ before ++ (upload ∷ after)
      → Step s (record { form = (upload_settled a s.form).1; running = before ++ after })

pub data Reach : Session → Type 0 where
  start : Reach (record { form = initial_upload; running = [] })
  next : {s t : Session} → Reach s → Step s t → Reach t

abbrev pub is_json : File → Bool
is_json file = ends_with (map lower file.name) (text ".json")

-- No upload runs and the flag is not set, or one upload runs and it is set: that of the file that is
-- staged, under a name that the server takes.
pub data IsRunning (u : Upload) : List (File × Text) → Type 0 where
  idle : u.uploading ≡ false → IsRunning u []
  busy :
      {file : File} {name : Text}
      → u.uploading ≡ true
      → u.pending_upload ≡ some file
      → IsPlanName name
      → IsRunning u ((file, name) ∷ [])

abbrev pub IsStaged : Option File → Type 0
IsStaged none = Unit
IsStaged (some file) = is_json file ≡ true

pub record IsSoundSession (s : Session) : Type 0 where
  pub runs : IsRunning s.form s.running
  pub staged : IsStaged s.form.pending_upload

-- A change that leaves the flag and the staged file alone.
unchanged :
    (s : Session) (u : Upload)
    → u.uploading ≡ s.form.uploading
    → u.pending_upload ≡ s.form.pending_upload
    → IsSoundSession s
    → IsSoundSession (record s { form = u })
unchanged s u e f sound = record { runs = moved s.running sound.runs; staged = rw f sound.staged }
  where
    moved : (rs : List (File × Text)) → IsRunning s.form rs → IsRunning u rs
    moved rs (idle h) = idle (e ∙ h)
    moved rs (busy h p n) = busy (e ∙ h) (f ∙ p) n

none_running :
    (u : Upload) (rs : List (File × Text)) → u.uploading ≡ false → IsRunning u rs → rs ≡ []
none_running u rs h (idle e) = refl
none_running u rs h (busy e p n) = let clash : true ≡ false = sym e ∙ h in cc

stage-IsSound :
    (file : File) (s : Session)
    → IsSoundSession s
    → IsSoundSession (record s { form = (stage_upload file s.form).1 })
unfolding stage_upload
stage-IsSound file s sound =
    elim (Bool-cases (s.form.plans_loading || (is_given s.form.plans_error || s.form.uploading))) [
      | inl blocked ↦ rw blocked sound
      | inr clear ↦
          let free : s.form.uploading ≡ false = ground arith in
          elim (Bool-cases (is_json file)) [
            | inr other ↦ rw (clear, other) sound
            | inl json ↦
                rw (clear, json)
                  (record {
                    runs =
                        subst (IsRunning _) (sym (none_running s.form s.running free sound.runs))
                          (idle free);
                    staged = json;
                  })
          ]
    ]

-- The dialog behind `closeUploadDialog`, by the flag that it tests.
closed : Session → Bool → Session
closed s b = record s {
  form = if b then s.form else record s.form { pending_upload = none; upload_error = none };
}

close-IsSound :
    (s : Session)
    → IsSoundSession s
    → IsSoundSession (record s { form = close_upload_dialog s.form })
unfolding close_upload_dialog closed
close-IsSound s sound = elim (Bool-cases s.form.uploading) [
  | inl runs ↦ subst (λ b. IsSoundSession (closed s b)) (sym runs) sound
  | inr free ↦
      subst (λ b. IsSoundSession (closed s b)) (sym free)
        (record {
          runs =
              subst (IsRunning (closed s false).form)
                (sym (none_running s.form s.running free sound.runs)) (idle free);
          staged = tt;
        })
]

start_refused_same :
    (o : Option File) (u : Upload)
    → (start_upload o u).0 ≡ none
    → ((start_upload o u).1.uploading ≡ u.uploading)
      × ((start_upload o u).1.pending_upload ≡ u.pending_upload)
unfolding start_upload
start_refused_same none u h = (refl, refl)
start_refused_same (some file) u h = ground arith

start_sent_same :
    (o : Option File) (u : Upload) (sent : File × Text)
    → (start_upload o u).0 ≡ some sent
    → ((start_upload o u).1.uploading ≡ true)
      × ((start_upload o u).1.pending_upload ≡ u.pending_upload)
unfolding start_upload
start_sent_same none u sent h = cc
start_sent_same (some file) u sent h = ground arith

confirm-IsSound :
    (s : Session)
    → s.form.uploading ≡ false
    → IsSoundSession s
    → IsSoundSession (record {
      form = (handle_upload s.form).1;
      running = s.running ++ started (handle_upload s.form).0;
    })
unfolding handle_upload
confirm-IsSound s h sound =
    let bare = none_running s.form s.running h sound.runs in
    elim (Option-cases (start_upload s.form.pending_upload s.form).0) [
      | inl refused ↦
          let (e, f) = start_refused_same s.form.pending_upload s.form refused in
          rw (refused, bare) (record { runs = idle (e ∙ h); staged = rw f sound.staged })
      | inr ((file, name), sent) ↦
          let (e, f) = start_sent_same s.form.pending_upload s.form (file, name) sent in
          let (staged, _, fits) = (handle_upload_iff s.form file name).0 sent in
          rw (sent, bare) (record { runs = busy e (f ∙ staged) fits; staged = rw f sound.staged })
    ]

only_one :
    (x upload : File × Text) (before after : List (File × Text))
    → x ∷ [] ≡ before ++ (upload ∷ after)
    → before ++ after ≡ []
only_one x upload [] [] h = refl
only_one x upload [] (a ∷ after) h = cc
only_one x upload (b ∷ []) after h = cc
only_one x upload (b ∷ c ∷ before) after h = cc

none_left :
    (u : Upload) (rs before after : List (File × Text)) (upload : File × Text)
    → rs ≡ before ++ (upload ∷ after)
    → IsRunning u rs
    → before ++ after ≡ []
none_left u rs [] after upload e (idle h) = cc
none_left u rs (b ∷ before) after upload e (idle h) = cc
none_left u rs before after upload e (busy {file} {name} h p n) =
    only_one (file, name) upload before after e

answer-IsSound :
    (s : Session) (before after : List (File × Text)) (upload : File × Text) (a : Settled Text)
    → s.running ≡ before ++ (upload ∷ after)
    → IsSoundSession s
    → IsSoundSession (record { form = (upload_settled a s.form).1; running = before ++ after })
unfolding upload_settled load_plans
answer-IsSound s before after upload (resolved message) e sound =
    rw (none_left s.form s.running before after upload e sound.runs)
      (record { runs = idle refl; staged = tt })
answer-IsSound s before after upload (rejected failure) e sound =
    rw (none_left s.form s.running before after upload e sound.runs)
      (record { runs = idle refl; staged = sound.staged })

Step-IsSound : {s t : Session} → Step s t → IsSoundSession s → IsSoundSession t
unfolding change_plan_mode change_new_plan load_plans
Step-IsSound (stage file s) sound = stage-IsSound file s sound
Step-IsSound (close s) sound = close-IsSound s sound
Step-IsSound (to_mode mode s) sound = unchanged s _ refl refl sound
Step-IsSound (to_plan none s) sound = unfold choose_plan in unchanged s _ refl refl sound
Step-IsSound (to_plan (some plan) s) sound = unfold choose_plan in unchanged s _ refl refl sound
Step-IsSound (to_name name s) sound = unchanged s _ refl refl sound
Step-IsSound (plans (resolved a) s) sound = unfold plans_settled in unchanged s _ refl refl sound
Step-IsSound (plans (rejected e) s) sound = unfold plans_settled in unchanged s _ refl refl sound
Step-IsSound (reload s) sound = unchanged s _ refl refl sound
Step-IsSound (confirm s h) sound = confirm-IsSound s h sound
Step-IsSound (answer s before after upload a e) sound =
    answer-IsSound s before after upload a e sound

-- In every reachable state, whatever is staged, closed or changed while an upload runs and in whatever
-- order the answers come, at most one upload runs, exactly while the form shows that one does; it is that
-- of the file that is staged, under an acceptable plan name; and only .json files are staged.
pub Reach-IsSoundSession : (s : Session) → Reach s → IsSoundSession s
Reach-IsSoundSession s start = unfold initial_upload in record { runs = idle refl; staged = tt }
Reach-IsSoundSession s (next {s = q} r st) = Step-IsSound st (Reach-IsSoundSession q r)
