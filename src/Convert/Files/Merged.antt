-- ===== src/Convert/Files/Merged.antt =====
-- The merged file against the files of single accounts.
use cdk_system.Base.{
  ℕ, suc, ◌≡◌, refl, ◌∙◌, ap, sym, subst, some, List, [], ◌∷◌, map, Text, length, arith,
  Option-cases, inl, inr,
}
use cdk_system.Json.{Json}
use cdk_system.Redeem.Archive.{LocalTime}
use cdk_system.Convert.Account.Token.{Runtime}
use cdk_system.Convert.Account.{
  Moment, Account, Sub2ApiAccount, convert_all, first_accounts, build_merged,
}
use cdk_system.Convert.Account.Merged.{
  alone, first_accounts-map, AreConverted, AreRetimed, convert_all-AreRetimed,
}
use cdk_system.Convert.Files.{zip, Download, single_files, create_single_zip}

module _ (R : Runtime) (print : Sub2ApiAccount → Text) where
  pub map-single_files :
      (e : Text) (number : ℕ) (accs : List Json) (as' : List Account)
      → length as' ≡ length accs
      → map (λ file. file.1) (single_files R print number accs (map (alone e) as'))
        ≡ map (λ a. print (alone e a)) as'
  unfolding single_files
  map-single_files e number [] [] h = refl
  map-single_files e number [] (a ∷ as') h = absurd (omega arith)
  map-single_files e number (acc ∷ accs) [] h = absurd (omega arith)
  map-single_files e number (acc ∷ accs) (a ∷ as') h =
      ap (λ texts. print (alone e a) ∷ texts)
        (map-single_files e (suc number) accs as' (omega arith))

  pub length-AreConverted :
      (moments : ℕ → Moment) (e : Text) (index : ℕ) (accs : List Json) (as' : List Account)
      → AreConverted R moments e index accs as'
      → length as' ≡ length accs
  length-AreConverted moments e index [] [] h = refl
  length-AreConverted moments e index [] (a ∷ as') h = elim h [ ]
  length-AreConverted moments e index (acc ∷ accs) [] h = elim h [ ]
  length-AreConverted moments e index (acc ∷ accs) (a ∷ as') (h, hs) =
      ap suc (length-AreConverted moments e (suc index) accs as' hs)

  length-AreRetimed :
      (moments moments' : ℕ → Moment) (index : ℕ) (as' bs : List Account)
      → AreRetimed R moments moments' index as' bs
      → length bs ≡ length as'
  length-AreRetimed moments moments' index [] [] h = refl
  length-AreRetimed moments moments' index [] (b ∷ bs) h = elim h [ ]
  length-AreRetimed moments moments' index (a ∷ as') [] h = elim h [ ]
  length-AreRetimed moments moments' index (a ∷ as') (b ∷ bs) (h, hs) =
      ap suc (length-AreRetimed moments moments' (suc index) as' bs hs)

  build_merged_of_some :
      (moments : ℕ → Moment) (e merged_at : Text) (accs : List Json) (m : Sub2ApiAccount)
      (converted : List Sub2ApiAccount)
      → convert_all R moments e 1 accs ≡ some converted
      → build_merged R moments e merged_at accs ≡ some m
      → m ≡ record { exported_at = merged_at; accounts = first_accounts converted }
  unfolding build_merged
  build_merged_of_some moments e merged_at accs m converted all_converted h = ground arith

  pub build_merged-AreConverted :
      (moments : ℕ → Moment) (e merged_at : Text) (accs : List Json) (m : Sub2ApiAccount)
      → build_merged R moments e merged_at accs ≡ some m
      → (m.exported_at ≡ merged_at) × AreConverted R moments e 1 accs m.accounts
  unfolding build_merged
  build_merged-AreConverted moments e merged_at accs m h =
      elim (Option-cases (convert_all R moments e 1 accs)) [
        | inl thrown ↦ ground arith
        | inr (converted, all_converted) ↦
            let (as', bs, whole, _, _, are) =
              convert_all-AreRetimed R moments moments e e 1 accs converted all_converted in
            let same : m ≡ record { exported_at = merged_at; accounts = as' } =
              build_merged_of_some moments e merged_at accs m converted all_converted h
              ∙ ap (λ list. record { exported_at = merged_at; accounts = list })
                  (ap first_accounts whole ∙ first_accounts-map e as') in
            rw same (refl, are)
      ]

  single_zip_of_some :
      (clock : LocalTime) (moments : ℕ → Moment) (e : Text) (accs : List Json)
      (converted : List Sub2ApiAccount)
      → convert_all R moments e 1 accs ≡ some converted
      → (d : Download) × (create_single_zip R print clock moments e accs ≡ some d)
        × (d.content ≡ zip (single_files R print 1 accs converted))
  unfolding create_single_zip
  single_zip_of_some clock moments e accs converted h =
      elim (Option-cases (create_single_zip R print clock moments e accs)) [
        | inl thrown ↦ ground arith
        | inr (d, found) ↦ (d, found, ground arith)
      ]

  -- What a merged file and a ZIP of single accounts have in common, for the same accounts.
  abbrev pub HoldSame : (ℕ → Moment) → (ℕ → Moment) → Text → Sub2ApiAccount → Download → Type 0
  HoldSame moments moments' e' m d =
      (files : List (Text × Text)) × (bs : List Account) × (d.content ≡ zip files)
      × (map (λ file. file.1) files ≡ map (λ b. print (alone e' b)) bs)
      × AreRetimed R moments moments' 1 m.accounts bs

  -- If accounts can be converted into a merged file, then they can be converted into a ZIP of single
  -- accounts, whatever the clock shows for either of them; and this ZIP holds, file by file, the
  -- accounts of the merged file in their order: each file is the print of one account, which differs
  -- from the account in the merged file at most in the time at the end of its name.
  pub create_single_zip-build_merged :
      (clock : LocalTime) (moments moments' : ℕ → Moment) (e e' merged_at : Text) (accs : List Json)
      (m : Sub2ApiAccount)
      → build_merged R moments e merged_at accs ≡ some m
      → (d : Download) × (create_single_zip R print clock moments' e' accs ≡ some d)
        × HoldSame moments moments' e' m d
  unfolding build_merged create_single_zip
  create_single_zip-build_merged clock moments moments' e e' merged_at accs m h =
      elim (Option-cases (convert_all R moments e 1 accs)) [
        | inl thrown ↦ ground arith
        | inr (converted, all_converted) ↦
            let (as', bs, whole, all', retimed, are) =
              convert_all-AreRetimed R moments moments' e e' 1 accs converted all_converted in
            let same : as' ≡ m.accounts =
              sym (first_accounts-map e as')
              ∙ ap first_accounts (sym whole)
              ∙ sym (
                  ap (λ s. s.accounts)
                    (build_merged_of_some moments e merged_at accs m converted all_converted h)) in
            let (d, zipped, content) =
              single_zip_of_some clock moments' e' accs (map (alone e') bs) all' in
            (
              d,
              zipped,
              (
                single_files R print 1 accs (map (alone e') bs),
                bs,
                content,
                map-single_files e' 1 accs bs (
                    length-AreRetimed moments moments' 1 as' bs retimed
                    ∙ length-AreConverted moments e 1 accs as' are),
                subst (λ list. AreRetimed R moments moments' 1 list bs) same retimed,
              ),
            )
      ]
