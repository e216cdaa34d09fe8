-- ===== src/Redeem/Archive.antt =====
-- Packing redeemed items into a ZIP file: web/src/lib/redeem-archive.ts.
-- JSZip is a third-party library: an archive is the list of the calls `zip.file(name, content)`.
-- `JSON.stringify(value, null, 2)` and the clock are parameters.
pub mod Laws
use cdk_system.Base.{
  ℕ, suc, ◌+◌, Bool, true, false, ◌||◌, ◌&&◌, Option, none, some, List, [], ◌∷◌, ◌++◌, map, Text,
  text, text_or, ◌==◌, is_alnum, is_empty, is_some, keep, length, decimal, pad_start, if◌then◌else◌,
}
use cdk_system.Json.{Json, get, text_or_empty}

-- `RedeemBatchItem`. `redemption` is a `RedeemSuccess` as the server sends it.
pub record RedeemBatchItem : Type 0 where
  pub code : Text
  pub success : Bool
  pub result : Text
  pub message : Text
  pub redemption : Option Json

-- The local time that `new Date()` reads; `month` counts from 0, as `getMonth` does.
pub record LocalTime : Type 0 where
  pub year : ℕ
  pub month : ℕ
  pub date : ℕ
  pub hours : ℕ
  pub minutes : ℕ
  pub seconds : ℕ

pub record Archive : Type 0 where
  pub files : List (Text × Text)
  pub filename : Text
  pub count : ℕ

-- The characters that `[^a-zA-Z0-9._-]` leaves alone.
unfoldable pub is_file_char : ℕ → Bool
is_file_char c = is_alnum c || (c == b'.') || (c == b'_') || (c == b'-')

unfoldable pub safe_filename : Text → Text
safe_filename value =
    text_or (map (λ c. if is_file_char c then c else b'_') value) (text "redeemed-item")

-- `String(value).padStart(2, "0")`.
unfoldable pub pad : ℕ → Text
pad value = pad_start 2 b'0' (decimal value)

unfoldable pub timestamp : LocalTime → Text
timestamp now =
    decimal now.year
    ++ (pad (now.month + 1)
        ++ (pad now.date ++ (text "_" ++ (pad now.hours ++ (pad now.minutes ++ pad now.seconds)))))

-- `item.ok && item.redemption`.
unfoldable pub is_successful : RedeemBatchItem → Bool
is_successful item = item.success && is_some item.redemption

abbrev redemption_of : RedeemBatchItem → Json
redemption_of item = elim item.redemption [ none ↦ Json.null | some r ↦ r ]

unfoldable pub file_name : ℕ → RedeemBatchItem → Text
file_name number item =
    pad_start 4 b'0' (decimal number)
    ++ (b'_'
        ∷ ((if is_some (get (text "credential") (redemption_of item))
              then text "credential-"
              else text "redemption-")
            ++ (safe_filename
                  (text_or (text_or_empty (get (text "code") (redemption_of item))) item.code)
                ++ text ".json")))

abbrev file_value : RedeemBatchItem → Json
file_value item = elim (get (text "credential") (redemption_of item)) [
  | none ↦ redemption_of item
  | some credential ↦ credential
]

module _ (stringify : Json → Text) where
  -- The loop over the successful items; `number` is `index + 1`.
  unfoldable pub archive_files : ℕ → List RedeemBatchItem → List (Text × Text)
  archive_files number [] = []
  archive_files number (item ∷ items) =
      (file_name number item, stringify (file_value item)) ∷ archive_files (suc number) items

  -- `createRedeemArchive` from the filtered items on.
  unfoldable pub pack : LocalTime → List RedeemBatchItem → Option Archive
  pack now [] = none
  pack now (item ∷ items) = some (record {
    files = archive_files 1 (item ∷ items);
    filename =
        text "redeemed-files_"
        ++ (decimal (length (item ∷ items)) ++ (text "_" ++ (timestamp now ++ text ".zip")));
    count = length (item ∷ items);
  })

  -- `createRedeemArchive`; `none` is the error that there is nothing to pack.
  unfoldable pub create_redeem_archive : LocalTime → List RedeemBatchItem → Option Archive
  create_redeem_archive now results = pack now (keep is_successful results)
