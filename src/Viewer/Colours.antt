-- ===== src/Viewer/Colours.antt =====
-- The parts of a printed value are its pieces, so each piece is shown in the colour of its kind.
use mathlib.Core.List.{append_assoc}
use mathlib.Core.Option.{some-injective}
use cdk_system.Base.{
  ℕ, zero, suc, ◌<◌, ◌≡◌, refl, ap, ◌∙◌, Bool, true, false, Option, none, some, List, [], ◌∷◌, ◌++◌,
  Text, length, length-append, Every-append, arith, Every,
}
use cdk_system.Viewer.{
  Colour, Painted, paint_part, paint_result, paint, token_class, split_tokens, match_token,
  ends_in_word, is_word, put_before,
}
use cdk_system.Viewer.Printed.{Piece, mark, token, printed, coloured}
use cdk_system.Viewer.Numbers.{is_mark}
use cdk_system.Viewer.Spelling.{match_token-mark}
use cdk_system.Viewer.Classes.{token_class-marks}

-- Each piece is read as it was printed.
pub data Reads : Bool → List Piece → Type 0 where
  reads_end : {before : Bool} → Reads before []
  reads_mark :
      {before : Bool} {c : ℕ} {ps : List Piece}
      → is_mark c ≡ true
      → Reads (is_word c) ps
      → Reads before (mark c ∷ ps)
  reads_token :
      {before : Bool} {colour : Colour} {t : Text} {ps : List Piece}
      → match_token before (t ++ printed ps) ≡ some (t, printed ps)
      → token_class t ≡ some colour
      → 0 < length t
      → Reads (ends_in_word before t) ps
      → Reads before (token colour t ∷ ps)

paint_part-append :
    (o : Option Colour) (s t : Text) → paint_part o (s ++ t) ≡ paint_part o s ++ paint_part o t
paint_part-append o [] t = refl
paint_part-append o (c ∷ s) t = ap (λ r. (c, o) ∷ r) (paint_part-append o s t)

paint-put_before :
    (cur t : Text) (o : Option (List Text)) (p : Painted)
    → paint_result o ≡ some p
    → paint_result (put_before cur t o)
      ≡ some (paint_part (token_class cur) cur ++ (paint_part (token_class t) t ++ p))
paint-put_before cur t none p h = absurd cc
paint-put_before cur t (some parts) p h =
    ap (λ r. some (paint_part (token_class cur) cur ++ (paint_part (token_class t) t ++ r)))
      (some-injective _ _ h)

split-mark :
    (f c : ℕ) (before : Bool) (cur s : Text)
    → is_mark c ≡ true
    → split_tokens (suc f) before cur (c ∷ s) ≡ split_tokens f (is_word c) (cur ++ (c ∷ [])) s
unfolding split_tokens
split-mark f c before cur s h = rw (match_token-mark before c s h, split_tokens) refl

split-token :
    (f c : ℕ) (before : Bool) (cur t s : Text)
    → match_token before (c ∷ (t ++ s)) ≡ some (c ∷ t, s)
    → split_tokens (suc f) before cur (c ∷ (t ++ s))
      ≡ put_before cur (c ∷ t) (split_tokens f (ends_in_word before (c ∷ t)) [] s)
unfolding split_tokens
split-token f c before cur t s h = rw (h, split_tokens) refl

-- The splitting shows the pieces behind the text since the last token, which is all punctuation.
paint-split :
    (f : ℕ) (before : Bool) (cur : Text) (ps : List Piece)
    → Reads before ps
    → Every is_mark cur
    → length (printed ps) < f
    → paint_result (split_tokens f before cur (printed ps))
      ≡ some (paint_part none cur ++ coloured ps)
paint-split zero before cur ps r k h = absurd (omega arith)
paint-split (suc f) before cur [] r k h = unfold split_tokens in rw (token_class-marks cur k) refl
paint-split (suc f) before cur (_ ∷ ps) (reads_mark {c = c} m r) k h =
    ap paint_result (split-mark f c before cur (printed ps) m)
    ∙ (paint-split f (is_word c) (cur ++ (c ∷ [])) ps r
          (Every-append is_mark cur (c ∷ []) k (m, tt)) (omega arith)
        ∙ ap some (
            ap (λ r. r ++ coloured ps) (paint_part-append none cur (c ∷ []))
            ∙ append_assoc (paint_part none cur) (paint_part none (c ∷ [])) (coloured ps)))
paint-split (suc f) before cur (_ ∷ ps) (reads_token {t = []} m e l r) k h = absurd (omega arith)
paint-split (suc f) before cur (_ ∷ ps) (reads_token {t = c ∷ t} m e l r) k h =
    ap paint_result (split-token f c before cur t (printed ps) m)
    ∙ (paint-put_before cur (c ∷ t) _ (coloured ps) (
          paint-split f (ends_in_word before (c ∷ t)) [] ps r tt
            (omega (arith, length-append t (printed ps))))
        ∙ (ap
              (λ o.
                some
                  (paint_part o cur ++ (paint_part (token_class (c ∷ t)) (c ∷ t) ++ coloured ps)))
              (token_class-marks cur k)
            ∙ ap (λ o. some (paint_part none cur ++ (paint_part o (c ∷ t) ++ coloured ps))) e))

pub paint-Reads : (ps : List Piece) → Reads false ps → paint (printed ps) ≡ some (coloured ps)
unfolding paint
paint-Reads ps r = paint-split (suc (length (printed ps))) false [] ps r tt (omega arith)
