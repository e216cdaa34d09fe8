-- ===== src/Viewer/Values.antt =====
-- Every piece of a printed value is read as it was printed.
use mathlib.Core.List.{append_assoc, append-nil}
use cdk_system.Base.{
  ℕ, Text, zero, suc, ◌*◌, ◌<◌, ◌≡◌, refl, sym, subst, Bool, true, false, none, some, List, [], ◌∷◌,
  ◌++◌, text, length, arith, replicate, if◌then◌else◌, is_space, is_alnum, ◌==◌,
}
use cdk_system.Json.{Json, Items, Fields, null, bool, num, str, arr, obj, nil, cons, end, field}
use cdk_system.Viewer.{sky, scan_colon, is_word, paint}
use cdk_system.Viewer.Printed.{
  Piece, mark, token, line, pieces, more_items, more_fields, printed, coloured, quoted,
  PrintsNumbers, ItemsPrint, FieldsPrint,
}
use cdk_system.Viewer.Numbers.{is_mark, opens, match_token-NumberText, length-NumberText}
use cdk_system.Viewer.Spelling.{
  match_token-quoted, match_token-key, match_token-null, match_token-bool,
}
use cdk_system.Viewer.Classes.{
  token_class-quoted, token_class-key, token_class-null, token_class-bool, token_class-NumberText,
}
use cdk_system.Viewer.Colours.{Reads, reads_end, reads_mark, reads_token, paint-Reads}

-- What may stand behind a value: nothing or punctuation, and no colon.
abbrev Follows : List Piece → Type 0
Follows ps = (opens (printed ps) ≡ true) × (scan_colon (printed ps) ≡ none)

assoc-Reads :
    (b : Bool) (xs ys qs : List Piece) → Reads b (xs ++ (ys ++ qs)) → Reads b ((xs ++ ys) ++ qs)
assoc-Reads b xs ys qs r = subst (Reads b) (sym (append_assoc xs ys qs)) r

assoc-Follows : (xs ys qs : List Piece) → Follows (xs ++ (ys ++ qs)) → Follows ((xs ++ ys) ++ qs)
assoc-Follows xs ys qs h = subst (λ ps. Follows ps) (sym (append_assoc xs ys qs)) h

is_word-mark : (c : ℕ) → is_mark c ≡ true → is_word c ≡ false
unfolding is_word is_alnum is_mark
is_word-mark c h = ground arith

mark-Reads :
    (b : Bool) (c : ℕ) (qs : List Piece) → is_mark c ≡ true → Reads false qs → Reads b (mark c ∷ qs)
mark-Reads b c qs h r = reads_mark h (subst (λ w. Reads w qs) (sym (is_word-mark c h)) r)

spaces-Reads :
    (m : ℕ) (qs : List Piece) → Reads false qs → Reads false (replicate m (mark 32) ++ qs)
spaces-Reads zero qs r = r
spaces-Reads (suc m) qs r = mark-Reads false 32 _ (unfold is_mark in refl) (spaces-Reads m qs r)

line-Reads : (b : Bool) (n : ℕ) (qs : List Piece) → Reads false qs → Reads b (line n ++ qs)
unfolding line
line-Reads b n qs r = mark-Reads b 10 _ (unfold is_mark in refl) (spaces-Reads (2 * n) qs r)

-- A closing bracket on a line of its own.
abbrev close : ℕ → ℕ → List Piece
close n c = line n ++ (mark c ∷ [])

close-Reads :
    (b : Bool) (n c : ℕ) (qs : List Piece)
    → is_mark c ≡ true
    → ((b : Bool) → Reads b qs)
    → Reads b (close n c ++ qs)
close-Reads b n c qs h after =
    assoc-Reads b (line n) (mark c ∷ []) qs
      (line-Reads b n _ (mark-Reads false c qs h (after false)))

-- A mark that is neither a colon nor white space.
abbrev IsCloser : ℕ → Type 0
IsCloser c = (is_mark c ≡ true) × ((c == b':') ≡ false) × (is_space c ≡ false)

scan_colon-spaces :
    (m c : ℕ) (qs : List Piece)
    → IsCloser c
    → scan_colon (printed (replicate m (mark 32) ++ (mark c ∷ qs))) ≡ none
unfolding scan_colon is_space
scan_colon-spaces zero c qs (h, k, l) = rw (k, l) refl
scan_colon-spaces (suc m) c qs h = rw (scan_colon-spaces m c qs h) refl

line-Follows : (n c : ℕ) (qs : List Piece) → IsCloser c → Follows (line n ++ (mark c ∷ qs))
unfolding line is_mark scan_colon is_space
line-Follows n c qs h = (refl, rw (scan_colon-spaces (2 * n) c qs h) refl)

close-Follows : (n c : ℕ) (qs : List Piece) → IsCloser c → Follows (close n c ++ qs)
close-Follows n c qs h = assoc-Follows (line n) (mark c ∷ []) qs (line-Follows n c qs h)

bracket : IsCloser b']'
unfolding is_mark is_space
bracket = (refl, refl, refl)

brace : IsCloser b'}'
unfolding is_mark is_space
brace = (refl, refl, refl)

comma-Follows : (qs : List Piece) → Follows (mark b',' ∷ qs)
unfolding is_mark scan_colon is_space
comma-Follows qs = (refl, refl)

items-Follows :
    (n : ℕ) (vs : Items) (qs : List Piece) → Follows qs → Follows (more_items n vs ++ qs)
unfolding more_items
items-Follows n nil qs h = h
items-Follows n (cons v vs) qs h = comma-Follows ((line n ++ (pieces n v ++ more_items n vs)) ++ qs)

fields-Follows :
    (n : ℕ) (fields : Fields) (qs : List Piece) → Follows qs → Follows (more_fields n fields ++ qs)
unfolding more_fields
fields-Follows n end qs h = h
fields-Follows n (field key v rest) qs h = comma-Follows (
    (line n
      ++ (token sky (quoted key ++ (b':' ∷ [])) ∷ mark 32 ∷ (pieces n v ++ more_fields n rest)))
    ++ qs)

key-Reads :
    (key : Text) (qs : List Piece)
    → Reads false qs
    → Reads false (token sky (quoted key ++ (b':' ∷ [])) ∷ mark 32 ∷ qs)
key-Reads key qs r =
    reads_token (match_token-key false key _) (token_class-key key) (omega arith)
      (mark-Reads _ 32 qs (unfold is_mark in refl) r)

opening : (is_mark b'[' ≡ true) × (is_mark b'{' ≡ true)
unfolding is_mark
opening = (refl, refl)

word_length :
    (0 < length (text "null")) × ((b : Bool) → 0 < length (if b then text "true" else text "false"))
unfolding text
word_length = (omega arith, λ b. ground arith)

comma : is_mark b',' ≡ true
unfolding is_mark
comma = refl

-- A value on its line, and a key with its value.
item-Reads :
    (b : Bool) (n : ℕ) (v xs qs : List Piece)
    → Reads false (v ++ (xs ++ qs))
    → Reads b ((line n ++ (v ++ xs)) ++ qs)
item-Reads b n v xs qs r =
    assoc-Reads b (line n) (v ++ xs) qs (line-Reads b n _ (assoc-Reads false v xs qs r))

entry-Reads :
    (b : Bool) (n : ℕ) (key : Text) (v xs qs : List Piece)
    → Reads false (v ++ (xs ++ qs))
    → Reads b ((line n ++ (token sky (quoted key ++ (b':' ∷ [])) ∷ mark 32 ∷ (v ++ xs))) ++ qs)
entry-Reads b n key v xs qs r =
    assoc-Reads b (line n) (token sky (quoted key ++ (b':' ∷ [])) ∷ mark 32 ∷ (v ++ xs)) qs
      (line-Reads b n _ (key-Reads key _ (assoc-Reads false v xs qs r)))

bracket-Reads :
    (b : Bool) (c d : ℕ) (qs : List Piece)
    → is_mark c ≡ true
    → is_mark d ≡ true
    → ((b : Bool) → Reads b qs)
    → Reads b (mark c ∷ mark d ∷ qs)
bracket-Reads b c d qs h k after = mark-Reads b c _ h (mark-Reads false d qs k (after false))

mutual
  unfolding pieces more_items more_fields PrintsNumbers ItemsPrint FieldsPrint

  pub pieces-Reads :
      (n : ℕ) (v : Json) (qs : List Piece)
      → PrintsNumbers v
      → Follows qs
      → ((b : Bool) → Reads b qs)
      → Reads false (pieces n v ++ qs)
  pieces-Reads n null qs h k after =
      reads_token (match_token-null _ k.0) token_class-null word_length.0 (after _)
  pieces-Reads n (bool b) qs h k after =
      reads_token (match_token-bool b _ k.0) (token_class-bool b) (word_length.1 b) (after _)
  pieces-Reads n (num t) qs h k after =
      reads_token (match_token-NumberText false t _ h k.0) (token_class-NumberText t h)
        (length-NumberText t h) (after _)
  pieces-Reads n (str s) qs h k after =
      reads_token (match_token-quoted false s _ k.1) (token_class-quoted s) (omega arith) (after _)
  pieces-Reads n (arr nil) qs h k after = bracket-Reads false b'[' b']' qs opening.0 bracket.0 after
  pieces-Reads n (arr (cons v vs)) qs (h, hs) k after = mark-Reads false b'[' _ opening.0 (
      item-Reads false (suc n) (pieces (suc n) v) (more_items (suc n) vs ++ close n b']') qs (
        pieces-Reads (suc n) v _ h
          (assoc-Follows (more_items (suc n) vs) (close n b']') qs
            (items-Follows (suc n) vs _ (close-Follows n b']' qs bracket)))
          (λ b. assoc-Reads b (more_items (suc n) vs) (close n b']') qs (
            items-Reads (suc n) vs (close n b']' ++ qs) hs (close-Follows n b']' qs bracket)
              (λ w. close-Reads w n b']' qs bracket.0 after) b))))
  pieces-Reads n (obj end) qs h k after = bracket-Reads false b'{' b'}' qs opening.1 brace.0 after
  pieces-Reads n (obj (field key v rest)) qs (h, hs) k after = mark-Reads false b'{' _ opening.1 (
      entry-Reads false (suc n) key (pieces (suc n) v) (more_fields (suc n) rest ++ close n b'}') qs
        (pieces-Reads (suc n) v _ h
          (assoc-Follows (more_fields (suc n) rest) (close n b'}') qs
            (fields-Follows (suc n) rest _ (close-Follows n b'}' qs brace)))
          (λ b. assoc-Reads b (more_fields (suc n) rest) (close n b'}') qs (
            fields-Reads (suc n) rest (close n b'}' ++ qs) hs (close-Follows n b'}' qs brace)
              (λ w. close-Reads w n b'}' qs brace.0 after) b))))

  items-Reads :
      (n : ℕ) (vs : Items) (qs : List Piece)
      → ItemsPrint vs
      → Follows qs
      → ((b : Bool) → Reads b qs)
      → (b : Bool) → Reads b (more_items n vs ++ qs)
  items-Reads n nil qs h k after b = after b
  items-Reads n (cons v vs) qs (h, hs) k after b = mark-Reads b b',' _ comma (
      item-Reads false n (pieces n v) (more_items n vs) qs
        (pieces-Reads n v _ h (items-Follows n vs qs k) (items-Reads n vs qs hs k after)))

  fields-Reads :
      (n : ℕ) (fields : Fields) (qs : List Piece)
      → FieldsPrint fields
      → Follows qs
      → ((b : Bool) → Reads b qs)
      → (b : Bool) → Reads b (more_fields n fields ++ qs)
  fields-Reads n end qs h k after b = after b
  fields-Reads n (field key v rest) qs (h, hs) k after b = mark-Reads b b',' _ comma (
      entry-Reads false n key (pieces n v) (more_fields n rest) qs
        (pieces-Reads n v _ h (fields-Follows n rest qs k) (fields-Reads n rest qs hs k after)))

-- The viewer shows a value, printed with an indentation of two, with its keys and their colons in sky,
-- its strings in emerald, its booleans in amber, null in purple and its numbers in rose, and all
-- punctuation and white space without a colour, provided that its numbers print as numbers do. Keys and
-- strings may hold any code units.
pub paint-pieces :
    (v : Json) → PrintsNumbers v → paint (printed (pieces 0 v)) ≡ some (coloured (pieces 0 v))
paint-pieces v h =
    subst (λ ps. paint (printed ps) ≡ some (coloured ps)) (append-nil (pieces 0 v))
      (paint-Reads (pieces 0 v ++ [])
        (pieces-Reads 0 v [] h (refl, unfold scan_colon in refl) (λ b. reads_end)))
