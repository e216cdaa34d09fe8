-- ===== src/Redeem/History/Stored.antt =====
-- What a reload of the tab shows after anything that has happened on the page, in
-- web/src/pages/redeem.tsx.
use cdk_system.Base.{
  suc, ◌≤◌, ◌≡◌, refl, ◌∙◌, ap, sym, subst, Bool, true, false, ◌⊎◌, inl, inr, Option, some, List,
  ◌∷◌, Text, take, is_empty, Option-cases, arith, length, keep, keep_of_Every,
}
use cdk_system.Json.{Json, arr, array_of}
use cdk_system.Storage.{Storage, IsLawful}
use cdk_system.Redeem.History.Guards.{is_history_entry}
use cdk_system.Redeem.History.{
  redeem_history_key, create_history_entry, load_redeem_history, persist_redeem_history, Page,
  open_page, commit_history, handle_redeem_success, handle_delete_history, handle_clear_history,
  select_entry, close_result,
}
use cdk_system.Redeem.History.Laws.{
  Step, succeed, delete, clear, select, close, Reach, here, next, Reach-IsSound,
  load_redeem_history-Every,
}
use cdk_system.Redeem.History.Reload.{read_entries-stringify}

module _ (parse : Text → Option Json) (stringify : Json → Text) (S : Storage) where
  -- `JSON.parse` reads back the text that `JSON.stringify` prints of a history, which is not empty.
  pub record ReadsBack (entries : List Json) : Type 0 where
    pub parsed : parse (stringify (arr (array_of entries))) ≡ some (arr (array_of entries))
    pub printed : is_empty (stringify (arr (array_of entries))) ≡ false

  -- The storage holds the text of the history, or still what it held when the page was opened.
  IsStored : S.State → Page parse stringify S → Type 0
  IsStored start p =
      (S.get_item p.session redeem_history_key
        ≡ some (some (stringify (arr (array_of p.history_ref)))))
      ⊎ ((p.session ≡ start) × (p.history_ref ≡ load_redeem_history parse stringify S start))

  commit_history-IsStored :
      IsLawful S
      → (start : S.State) (entries : List Json) (p : Page parse stringify S)
      → (commit_history parse stringify S entries p).warnings ≡ 0
      → IsStored start (commit_history parse stringify S entries p)
  unfolding IsStored persist_redeem_history commit_history
  commit_history-IsStored L start entries p silent =
      elim (Option-cases (persist_redeem_history parse stringify S entries p.session)) [
        | inl failed ↦
            let warned : (commit_history parse stringify S entries p).warnings ≡ suc p.warnings =
              rw (failed, commit_history) refl in
            let clash : suc p.warnings ≡ 0 = sym warned ∙ silent in absurd (omega arith)
        | inr (session, e) ↦
            rw (e, commit_history)
              (inl (L.get-set p.session redeem_history_key (stringify (arr (array_of entries))) e))
      ]

  handle_redeem_success-commit :
      (id saved_at : Text) (result : Json) (reveal : Bool) (p : Page parse stringify S)
      → let q = handle_redeem_success parse stringify S id saved_at result reveal p in
        let c =
          commit_history parse stringify S
            (take 20 (create_history_entry id saved_at result ∷ p.history_ref))
            p in
        (q.warnings ≡ c.warnings) × (q.session ≡ c.session) × (q.history_ref ≡ c.history_ref)
  unfolding handle_redeem_success
  handle_redeem_success-commit id saved_at result true p = (refl, refl, refl)
  handle_redeem_success-commit id saved_at result false p = (refl, refl, refl)

  same-IsStored :
      (start : S.State) (p q : Page parse stringify S)
      → q.session ≡ p.session
      → q.history_ref ≡ p.history_ref
      → IsStored start p
      → IsStored start q
  unfolding IsStored
  same-IsStored start p q e h s = rw (e, h) s

  commit_history-warnings :
      (entries : List Json) (p : Page parse stringify S)
      → p.warnings ≤ (commit_history parse stringify S entries p).warnings
  unfolding commit_history
  commit_history-warnings entries p = ground arith

  Step-warnings :
      {p q : Page parse stringify S} → Step parse stringify S p q → p.warnings ≤ q.warnings
  unfolding handle_delete_history handle_clear_history select_entry close_result
  Step-warnings (succeed id saved_at result reveal p) =
      let (w, _, _) = handle_redeem_success-commit id saved_at result reveal p in
      rw w (
        commit_history-warnings (take 20 (create_history_entry id saved_at result ∷ p.history_ref))
          p)
  Step-warnings (delete id p) = commit_history-warnings _ p
  Step-warnings (clear p) = commit_history-warnings _ p
  Step-warnings (select result p) = omega arith
  Step-warnings (close p) = omega arith

  Step-IsStored :
      IsLawful S
      → (start : S.State) {p q : Page parse stringify S} → Step parse stringify S p q
      → q.warnings ≡ 0
      → IsStored start p
      → IsStored start q
  unfolding handle_delete_history handle_clear_history select_entry close_result
  Step-IsStored L start (succeed id saved_at result reveal p) silent s =
      let (w, e, r) = handle_redeem_success-commit id saved_at result reveal p in
      let entries = take 20 (create_history_entry id saved_at result ∷ p.history_ref) in
      same-IsStored start (commit_history parse stringify S entries p) _ e r
        (commit_history-IsStored L start entries p (sym w ∙ silent))
  Step-IsStored L start (delete id p) silent s = commit_history-IsStored L start _ p silent
  Step-IsStored L start (clear p) silent s = commit_history-IsStored L start _ p silent
  Step-IsStored L start (select result p) silent s = same-IsStored start p _ refl refl s
  Step-IsStored L start (close p) silent s = same-IsStored start p _ refl refl s

  Reach-IsStored :
      IsLawful S
      → (start : S.State) (p : Page parse stringify S)
      → Reach parse stringify S (open_page parse stringify S start) p
      → p.warnings ≡ 0
      → IsStored start p
  unfolding open_page IsStored
  Reach-IsStored L start p here silent = inr (refl, refl)
  Reach-IsStored L start p (next {p = q} r st) silent =
      let quiet : q.warnings ≡ 0 = omega (arith, Step-warnings st) in
      Step-IsStored L start st silent (Reach-IsStored L start q r quiet)

  reload_of :
      (start : S.State) (p : Page parse stringify S)
      → length p.history_ref ≤ 20
      → ReadsBack p.history_ref
      → IsStored start p
      → load_redeem_history parse stringify S p.session ≡ keep is_history_entry p.history_ref
  unfolding IsStored load_redeem_history
  reload_of start p h b (inl e) =
      rw (e, load_redeem_history)
        (read_entries-stringify parse stringify S p.history_ref h b.parsed b.printed)
  reload_of start p h b (inr (same, e)) =
      ap (load_redeem_history parse stringify S) same
      ∙ sym (
          keep_of_Every is_history_entry (load_redeem_history parse stringify S start)
            (load_redeem_history-Every parse stringify S start))
      ∙ ap (keep is_history_entry) (sym e)

  -- Whatever has happened on a page since it was opened, answers that are no redemptions included, as
  -- long as it has shown no warning that the history could not be saved: a page that is opened on the
  -- same storage shows the entries of this history that pass the guard, in their order, and no
  -- others. So the entries that the guard refuses are lost without a warning. The storage is lawful,
  -- and `JSON.parse` reads back the text that `JSON.stringify` prints of this history, which is not
  -- empty.
  pub Reach-open_page :
      IsLawful S
      → (start : S.State) (p : Page parse stringify S)
      → Reach parse stringify S (open_page parse stringify S start) p
      → p.warnings ≡ 0
      → ReadsBack p.history
      → (open_page parse stringify S p.session).history ≡ keep is_history_entry p.history
  unfolding open_page
  Reach-open_page L start p r silent b =
      let sound = Reach-IsSound parse stringify S start p r in
      reload_of start p sound.bounded (subst ReadsBack sound.shown b)
        (Reach-IsStored L start p r silent)
      ∙ ap (keep is_history_entry) (sym sound.shown)
