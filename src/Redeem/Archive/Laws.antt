-- ===== src/Redeem/Archive/Laws.antt =====
-- The names of the files in an archive.
use cdk_system.Base.{
  ℕ, suc, ◌+◌, ◌<◌, ◌≤◌, ◌≡◌, refl, ap, Bool, true, false, Option, none, some, List, [], ◌∷◌, map,
  Text, text, text_or, is_alnum, is_some, keep, all, any, all-append_true, Every, ◌≢◌, length,
  if◌then◌else◌, text_eq_iff, arith,
}
use cdk_system.Base.Decimal.{all-pad_start, read_number, read_number-pad_start}
use cdk_system.Json.{Json, get}
use cdk_system.Redeem.Codes.{contains}
use cdk_system.Redeem.Codes.Laws.{Distinct}
use cdk_system.Redeem.Archive.{
  RedeemBatchItem, LocalTime, Archive, is_file_char, safe_filename, is_successful, redemption_of,
  file_name, archive_files, pack, create_redeem_archive,
}

abbrev pub names : List (Text × Text) → List Text
names [] = []
names ((name, content) ∷ files) = name ∷ names files

read_number-file_name :
    (number : ℕ) (item : RedeemBatchItem) → read_number 0 (file_name number item) ≡ number
unfolding file_name
read_number-file_name number item = read_number-pad_start 4 number _

module _ (stringify : Json → Text) where
  later_names :
      (name : Text) (number : ℕ) (items : List RedeemBatchItem)
      → read_number 0 name < number
      → contains (names (archive_files stringify number items)) name ≡ false
  unfolding contains any archive_files
  later_names name number [] h = refl
  later_names name number (item ∷ items) h = ground (
    arith,
    text_eq_iff name (file_name number item),
    read_number-file_name number item,
    later_names name (suc number) items,
  )

  archive_files-Distinct :
      (number : ℕ) (items : List RedeemBatchItem)
      → Distinct (names (archive_files stringify number items))
  unfolding archive_files
  archive_files-Distinct number [] = tt
  archive_files-Distinct number (item ∷ items) = (
    later_names (file_name number item) (suc number) items
        (omega (arith, read_number-file_name number item)),
    archive_files-Distinct (suc number) items,
  )

  length-archive_files :
      (number : ℕ) (items : List RedeemBatchItem)
      → length (archive_files stringify number items) ≡ length items
  unfolding archive_files
  length-archive_files number [] = refl
  length-archive_files number (item ∷ items) = ap suc (length-archive_files (suc number) items)

digit-is_file_char : (d : ℕ) → d ≤ 9 → is_file_char (48 + d) ≡ true
unfolding is_file_char is_alnum
digit-is_file_char d h = ground arith

all-map_replaced :
    (value : Text) → all is_file_char (map (λ c. if is_file_char c then c else b'_') value) ≡ true
unfolding all
all-map_replaced [] = refl
all-map_replaced (c ∷ value) = ground (arith, all-map_replaced value, underscore)
  where
    underscore : is_file_char b'_' ≡ true
    underscore = unfold is_file_char is_alnum in refl

all-text_or :
    (s t : Text)
    → all is_file_char s ≡ true
    → all is_file_char t ≡ true
    → all is_file_char (text_or s t) ≡ true
all-text_or [] t h k = k
all-text_or (c ∷ s) t h k = h

all-safe_filename : (value : Text) → all is_file_char (safe_filename value) ≡ true
unfolding safe_filename
all-safe_filename value =
    all-text_or _ _ (all-map_replaced value) (unfold all is_file_char is_alnum text in refl)

all-file_name :
    (number : ℕ) (item : RedeemBatchItem) → all is_file_char (file_name number item) ≡ true
unfolding file_name all
all-file_name number item =
    all-append_true is_file_char _ _ (all-pad_start is_file_char digit-is_file_char 4 number) (
      rw underscore (
        all-append_true is_file_char _ _
          (kind (is_some (get (text "credential") (redemption_of item))))
          (all-append_true is_file_char _ _ (all-safe_filename _) suffix)))
  where
    underscore : is_file_char b'_' ≡ true
    underscore = unfold is_file_char is_alnum in refl

    suffix : all is_file_char (text ".json") ≡ true
    suffix = unfold all is_file_char is_alnum text in refl

    kind :
        (b : Bool) → all is_file_char (if b then text "credential-" else text "redemption-") ≡ true
    kind true = unfold all is_file_char is_alnum text in refl
    kind false = unfold all is_file_char is_alnum text in refl

module _ (stringify : Json → Text) where
  archive_files-names :
      (number : ℕ) (items : List RedeemBatchItem)
      → Every (all is_file_char) (names (archive_files stringify number items))
  unfolding archive_files
  archive_files-names number [] = tt
  archive_files-names number (item ∷ items) =
      (all-file_name number item, archive_files-names (suc number) items)

  -- What an archive of the given successful items is: none of no items; else one file for each
  -- item, counted, with distinct names of safe characters.
  abbrev pub IsPacked : List RedeemBatchItem → Option Archive → Type 0
  IsPacked successful none = successful ≡ []
  IsPacked successful (some a) =
      (successful ≢ [])
      × (a.count ≡ length successful)
      × (length a.files ≡ a.count)
      × Distinct (names a.files)
      × Every (all is_file_char) (names a.files)

  pack-IsPacked :
      (now : LocalTime) (successful : List RedeemBatchItem)
      → IsPacked successful (pack stringify now successful)
  unfolding pack
  pack-IsPacked now [] = refl
  pack-IsPacked now (item ∷ items) = (
    (λ e. cc),
    refl,
    length-archive_files stringify 1 (item ∷ items),
    archive_files-Distinct stringify 1 (item ∷ items),
    archive_files-names 1 (item ∷ items),
  )

  -- There is no archive exactly when no item is successful. Otherwise it holds one file for each
  -- successful item and says so in its count, no two files have one name, and every name consists
  -- of ASCII letters, digits, dots, underscores and dashes, whatever the codes are.
  pub create_redeem_archive-IsPacked :
      (now : LocalTime) (results : List RedeemBatchItem)
      → IsPacked (keep is_successful results) (create_redeem_archive stringify now results)
  unfolding create_redeem_archive
  create_redeem_archive-IsPacked now results = pack-IsPacked now (keep is_successful results)
