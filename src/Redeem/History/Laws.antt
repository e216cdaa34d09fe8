-- ===== src/Redeem/History/Laws.antt =====
-- What the history holds in every state that the page can reach.
use cdk_system.Base.{
  ℕ, ◌+◌, subst, ◌≤◌, ◌≡◌, refl, Bool, true, false, Option, none, some, List, [], ◌∷◌, Text, not,
  keep, take, length, Every, Every-take, keep-Every, length-take-le, length-keep-le, arith,
  Option-cases, inl, inr,
}
use cdk_system.Json.{Json, arr, items_of}
use cdk_system.Storage.{Storage}
use cdk_system.Redeem.History.Guards.{is_history_entry}
use cdk_system.Redeem.History.Entries.{
  fails, is_stray, length-keep-take, length-keep-keep, keep-one, no_fails,
  fails-create_history_entry,
}
use cdk_system.Redeem.History.{
  redeem_history_key, create_history_entry, has_id, stored_entries, read_entries,
  load_redeem_history, Page, open_page, commit_history, handle_redeem_success,
  handle_delete_history, handle_clear_history, select_entry, close_result, persist_redeem_history,
}

stored_entries-bounds :
    (parsed : Json)
    → (length (stored_entries parsed) ≤ 20) × Every is_history_entry (stored_entries parsed)
unfolding stored_entries
stored_entries-bounds (arr vs) = (
  length-take-le 20 (keep is_history_entry (items_of vs)),
  Every-take is_history_entry 20 _ (keep-Every is_history_entry (items_of vs)),
)
stored_entries-bounds _ = (omega arith, tt)

module _ (parse : Text → Option Json) (stringify : Json → Text) (S : Storage) where
  abbrev Bounds : List Json → Type 0
  Bounds entries = (length entries ≤ 20) × Every is_history_entry entries

  parsed-Bounds :
      (o : Option Json) → Bounds (elim o [ none ↦ [] | some parsed ↦ stored_entries parsed ])
  parsed-Bounds none = (omega arith, tt)
  parsed-Bounds (some parsed) = stored_entries-bounds parsed

  read_entries-Bounds : (raw : Option Text) → Bounds (read_entries parse stringify S raw)
  unfolding read_entries
  read_entries-Bounds none = (omega arith, tt)
  read_entries-Bounds (some []) = (omega arith, tt)
  read_entries-Bounds (some (c ∷ raw)) = parsed-Bounds (parse (c ∷ raw))

  load_redeem_history-Bounds :
      (session : S.State) → Bounds (load_redeem_history parse stringify S session)
  unfolding load_redeem_history
  load_redeem_history-Bounds session = elim (Option-cases (S.get_item session redeem_history_key)) [
    | inl failed ↦ rw (failed, load_redeem_history) (omega arith, tt)
    | inr (raw, e) ↦ rw (e, load_redeem_history) (read_entries-Bounds raw)
  ]

  pub load_redeem_history-Every :
      (session : S.State) → Every is_history_entry (load_redeem_history parse stringify S session)
  load_redeem_history-Every session = (load_redeem_history-Bounds session).1

  -- The shown history is the one that the next operation starts from, it holds at most 20 entries,
  -- and at most `strays` of them fail the guard by which a reload selects.
  pub record IsSound (strays : ℕ) (p : Page parse stringify S) : Type 0 where
    pub shown : p.history ≡ p.history_ref
    pub bounded : length p.history_ref ≤ 20
    pub few : length (keep fails p.history_ref) ≤ strays

  -- What the user and the server can do to the page. The page takes any answer for a redemption.
  pub data Step : Page parse stringify S → Page parse stringify S → Type 0 where
    succeed :
        (id saved_at : Text) (result : Json) (reveal : Bool) (p : Page parse stringify S)
        → Step p (handle_redeem_success parse stringify S id saved_at result reveal p)
    delete :
        (id : Text) (p : Page parse stringify S)
        → Step p (handle_delete_history parse stringify S id p)
    clear : (p : Page parse stringify S) → Step p (handle_clear_history parse stringify S p)
    select :
        (result : Json) (p : Page parse stringify S)
        → Step p (select_entry parse stringify S result p)
    close : (p : Page parse stringify S) → Step p (close_result parse stringify S p)

  pub data Reach (s : Page parse stringify S) : Page parse stringify S → Type 0 where
    here : Reach s s
    next : {p q : Page parse stringify S} → Reach s p → Step p q → Reach s q

  -- The answers that the page has taken for redemptions, the latest first.
  unfoldable pub answers_of : {s p : Page parse stringify S} → Reach s p → List Json
  answers_of here = []
  answers_of (next r (succeed id saved_at result reveal p)) = result ∷ answers_of r
  answers_of (next r (delete id p)) = answers_of r
  answers_of (next r (clear p)) = answers_of r
  answers_of (next r (select result p)) = answers_of r
  answers_of (next r (close p)) = answers_of r

  pub commit_history-history :
      (entries : List Json) (p : Page parse stringify S)
      → ((commit_history parse stringify S entries p).history ≡ entries)
        × ((commit_history parse stringify S entries p).history_ref ≡ entries)
  unfolding commit_history
  commit_history-history entries p = ground arith

  commit_history-IsSound :
      (strays : ℕ) (entries : List Json) (p : Page parse stringify S)
      → length entries ≤ 20
      → length (keep fails entries) ≤ strays
      → IsSound strays (commit_history parse stringify S entries p)
  unfolding commit_history
  commit_history-IsSound strays entries p h k =
      elim (Option-cases (persist_redeem_history parse stringify S entries p.session)) [
        | inl failed ↦ rw (failed, commit_history) (record { shown = refl; bounded = h; few = k })
        | inr (session, e) ↦ rw (e, commit_history) (record { shown = refl; bounded = h; few = k })
      ]

  pub handle_redeem_success-history_ref :
      (id saved_at : Text) (result : Json) (reveal : Bool) (p : Page parse stringify S)
      → (handle_redeem_success parse stringify S id saved_at result reveal p).history_ref
        ≡ take 20 (create_history_entry id saved_at result ∷ p.history_ref)
  unfolding handle_redeem_success
  handle_redeem_success-history_ref id saved_at result true p =
      (commit_history-history (take 20 (create_history_entry id saved_at result ∷ p.history_ref))
        p).1
  handle_redeem_success-history_ref id saved_at result false p =
      (commit_history-history (take 20 (create_history_entry id saved_at result ∷ p.history_ref))
        p).1

  pub handle_redeem_success-history :
      (id saved_at : Text) (result : Json) (reveal : Bool) (p : Page parse stringify S)
      → (handle_redeem_success parse stringify S id saved_at result reveal p).history
        ≡ take 20 (create_history_entry id saved_at result ∷ p.history_ref)
  unfolding handle_redeem_success
  handle_redeem_success-history id saved_at result true p =
      (commit_history-history (take 20 (create_history_entry id saved_at result ∷ p.history_ref))
        p).0
  handle_redeem_success-history id saved_at result false p =
      (commit_history-history (take 20 (create_history_entry id saved_at result ∷ p.history_ref))
        p).0

  commit_history-selected_result :
      (entries : List Json) (p : Page parse stringify S)
      → (commit_history parse stringify S entries p).selected_result ≡ p.selected_result
  unfolding commit_history
  commit_history-selected_result entries p = ground arith

  pub handle_redeem_success-selected_result :
      (id saved_at : Text) (result : Json) (p : Page parse stringify S)
      → (handle_redeem_success parse stringify S id saved_at result false p).selected_result
        ≡ p.selected_result
  unfolding handle_redeem_success
  handle_redeem_success-selected_result id saved_at result p =
      commit_history-selected_result
        (take 20 (create_history_entry id saved_at result ∷ p.history_ref)) p

  pub handle_delete_history-history :
      (id : Text) (p : Page parse stringify S)
      → (handle_delete_history parse stringify S id p).history
        ≡ keep (λ entry. not (has_id id entry)) p.history_ref
  unfolding handle_delete_history
  handle_delete_history-history id p =
      (commit_history-history (keep (λ entry. not (has_id id entry)) p.history_ref) p).0

  handle_redeem_success-IsSound :
      (strays : ℕ) (id saved_at : Text) (result : Json) (reveal : Bool) (p : Page parse stringify S)
      → IsSound strays p
      → IsSound
          (length (keep is_stray (result ∷ [])) + strays)
          (handle_redeem_success parse stringify S id saved_at result reveal p)
  unfolding handle_redeem_success
  handle_redeem_success-IsSound strays id saved_at result reveal p s =
      let entry : Json = create_history_entry id saved_at result in
      let sound =
        commit_history-IsSound (length (keep is_stray (result ∷ [])) + strays)
          (take 20 (entry ∷ p.history_ref)) p (length-take-le 20 (entry ∷ p.history_ref))
          (omega (
            arith,
            length-keep-take fails 20 (entry ∷ p.history_ref),
            fails-create_history_entry id saved_at result p.history_ref,
            s.few,
          )) in
      elim reveal
        as (λ b.
          IsSound (length (keep is_stray (result ∷ [])) + strays)
            (handle_redeem_success parse stringify S id saved_at result b p)) [
              | true ↦ record { shown = sound.shown; bounded = sound.bounded; few = sound.few }
              | false ↦ sound
            ]

  open_page-IsSound : (session : S.State) → IsSound 0 (open_page parse stringify S session)
  unfolding open_page
  open_page-IsSound session =
      let (bounded, valid) = load_redeem_history-Bounds session in
      record { shown = refl; bounded = bounded; few = omega (arith, no_fails _ valid) }

  -- Whatever the storage held when the page was opened, and whatever happens on the page since, the
  -- history that it shows is the one that its handlers work on and holds at most 20 entries; and of
  -- these at most as many fail the guard of a reload as the page has taken answers for redemptions
  -- that are none, so that all of them pass it if there was no such answer.
  pub Reach-IsSound :
      (session : S.State) (p : Page parse stringify S)
      (r : Reach (open_page parse stringify S session) p)
      → IsSound (length (keep is_stray (answers_of r))) p
  unfolding handle_delete_history handle_clear_history select_entry close_result answers_of keep
  Reach-IsSound session p here = open_page-IsSound session
  Reach-IsSound session p (next r (succeed id saved_at result reveal q)) =
      subst (λ n. IsSound n (handle_redeem_success parse stringify S id saved_at result reveal q))
        (keep-one is_stray result (answers_of r))
        (handle_redeem_success-IsSound (length (keep is_stray (answers_of r))) id saved_at result
          reveal q (Reach-IsSound session q r))
  Reach-IsSound session p (next r (delete id q)) =
      let s = Reach-IsSound session q r in
      let kept = keep (λ entry. not (has_id id entry)) q.history_ref in
      commit_history-IsSound (length (keep is_stray (answers_of r))) kept q
        (omega (arith, length-keep-le (λ entry. not (has_id id entry)) q.history_ref, s.bounded))
        (omega
          (arith, length-keep-keep fails (λ entry. not (has_id id entry)) q.history_ref, s.few))
  Reach-IsSound session p (next r (clear q)) =
      commit_history-IsSound (length (keep is_stray (answers_of r))) [] q (omega arith)
        (omega arith)
  Reach-IsSound session p (next r (select result q)) =
      let s = Reach-IsSound session q r in
      record { shown = s.shown; bounded = s.bounded; few = s.few }
  Reach-IsSound session p (next r (close q)) =
      let s = Reach-IsSound session q r in
      record { shown = s.shown; bounded = s.bounded; few = s.few }
