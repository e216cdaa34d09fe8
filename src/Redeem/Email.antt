-- ===== src/Redeem/Email.antt =====
-- `isValidEmail` of web/src/pages/redeem.tsx, against the shape of address that it stands for.
use cdk_system.Base.{
  ℕ, ◌≤◌, ◌≡◌, refl, ap, sym, ◌∙◌, ◌⊎◌, ◌↔◌, ◌≢◌, Bool, true, false, ◌||◌, ◌&&◌, not, [], ◌∷◌, ◌++◌,
  Text, ◌==◌, ==_iff, leb, is_space, length, all, all-append, if◌then◌else◌, arith, and_split,
  Bool-cases, inl, inr,
}

-- The class `[^\s@]`.
unfoldable pub is_plain : ℕ → Bool
is_plain c = not (is_space c || (c == b'@'))

-- `\.[^\s@]+$` at this place or later, in a text of the class: a dot with something behind it.
unfoldable pub dot_inside : Text → Bool
dot_inside [] = false
dot_inside (c ∷ []) = false
dot_inside (c ∷ d ∷ s) = (c == b'.') || dot_inside (d ∷ s)

-- `[^\s@]+\.[^\s@]+$`.
unfoldable pub is_domain : Text → Bool
is_domain [] = false
is_domain (c ∷ s) = all is_plain (c ∷ s) && dot_inside s

-- `^[^\s@]+@[^\s@]+\.[^\s@]+$`; `started` says that a character has been read.
unfoldable pub is_address : Bool → Text → Bool
is_address started [] = false
is_address started (c ∷ s) =
    let more = is_address true s in
    if c == b'@' then started && is_domain s else not (is_space c) && more

unfoldable pub is_valid_email : Text → Bool
is_valid_email value = leb (length value) 254 && is_address false value

-- A local part, an `@`, and a domain that holds a dot which is neither its first nor its last
-- character; there are no spaces and no other `@`.
abbrev pub IsAddress : Text → Type 0
IsAddress value =
    (name : Text) × (host : Text) × (top : Text) × (value ≡ name ++ (b'@' ∷ (host ++ (b'.' ∷ top))))
    × ((name ≢ []) × (host ≢ []) × (top ≢ []))
    × ((all is_plain name ≡ true) × (all is_plain host ≡ true) × (all is_plain top ≡ true))

dot_inside_sound :
    (s : Text)
    → dot_inside s ≡ true
    → (host : Text) × (top : Text) × (s ≡ host ++ (b'.' ∷ top)) × (top ≢ [])
unfolding dot_inside
dot_inside_sound [] h = cc
dot_inside_sound (c ∷ []) h = cc
dot_inside_sound (c ∷ d ∷ s) h = elim (Bool-cases (c == b'.')) [
  | inl dot ↦ ([], d ∷ s, ap (λ x. x ∷ d ∷ s) ((==_iff c b'.').0 dot), λ e. cc)
  | inr other ↦
      let (host, top, e, n) = dot_inside_sound (d ∷ s) (rw other at h) in
      (c ∷ host, top, ap (λ t. c ∷ t) e, n)
]

dot_inside_complete : (host top : Text) → top ≢ [] → dot_inside (host ++ (b'.' ∷ top)) ≡ true
unfolding dot_inside
dot_inside_complete [] [] n = absurd (n refl)
dot_inside_complete [] (d ∷ top) n = refl
dot_inside_complete (c ∷ []) top n = ground (arith, dot_inside_complete [] top n)
dot_inside_complete (c ∷ d ∷ host) top n = ground (arith, dot_inside_complete (d ∷ host) top n)

-- The domain part, without the local part in front of it.
abbrev IsHost : Text → Text → Text → Type 0
IsHost s host top =
    (s ≡ host ++ (b'.' ∷ top))
    × ((host ≢ []) × (top ≢ []))
    × ((all is_plain host ≡ true) × (all is_plain top ≡ true))

all_parts :
    (host top : Text)
    → all is_plain (host ++ (b'.' ∷ top)) ≡ (all is_plain host && all is_plain top)
unfolding is_plain is_space
all_parts host top =
    all-append is_plain host (b'.' ∷ top) ∙ ap (λ b. all is_plain host && b) (unfold all in refl)

is_domain-cons : (c : ℕ) (s : Text) → is_domain (c ∷ s) ≡ (all is_plain (c ∷ s) && dot_inside s)
unfolding is_domain
is_domain-cons c s = refl

is_domain_sound : (s : Text) → is_domain s ≡ true → (host : Text) × (top : Text) × IsHost s host top
is_domain_sound [] h = absurd (unfold is_domain in cc h)
is_domain_sound (c ∷ s) h =
    let both : (all is_plain (c ∷ s) && dot_inside s) ≡ true = rw is_domain-cons at h in
    let (plain, dotted) = and_split (all is_plain (c ∷ s)) (dot_inside s) both in
    let (host, top, e, n) = dot_inside_sound s dotted in
    let parts : (all is_plain (c ∷ host) && all is_plain top) ≡ true =
      sym (all_parts (c ∷ host) top) ∙ ap (λ t. all is_plain (c ∷ t)) (sym e) ∙ plain in
    (
      c ∷ host,
      top,
      (
        ap (λ t. c ∷ t) e,
        ((λ e'. cc), n),
        and_split (all is_plain (c ∷ host)) (all is_plain top) parts,
      ),
    )

is_domain_complete : (s host top : Text) → IsHost s host top → is_domain s ≡ true
is_domain_complete s [] top (e, (n, m), (k, l)) = absurd (n refl)
is_domain_complete s (c ∷ host) top (e, (n, m), (k, l)) =
    rw (e, is_domain-cons, all_parts (c ∷ host) top, k, l) (dot_inside_complete host top m)

is_plain_of : (c : ℕ) → (c == b'@') ≡ false → not (is_space c) ≡ true → is_plain c ≡ true
unfolding is_plain
is_plain_of c h k = ground arith

all-cons :
    (c : ℕ) (s : Text) → is_plain c ≡ true → all is_plain s ≡ true → all is_plain (c ∷ s) ≡ true
unfolding all
all-cons c s h k = rw h k

is_address_sound :
    (started : Bool) (s : Text)
    → is_address started s ≡ true
    → (name : Text) × (rest : Text) × (s ≡ name ++ (b'@' ∷ rest))
      × ((started ≡ true) ⊎ (name ≢ []))
      × (all is_plain name ≡ true)
      × (is_domain rest ≡ true)
unfolding is_address
is_address_sound started [] h = cc
is_address_sound started (c ∷ s) h = elim (Bool-cases (c == b'@')) [
  | inl sign ↦
      let both : (started && is_domain s) ≡ true = rw sign at h in
      let (begun, domain) = and_split started (is_domain s) both in
      ([], s, ap (λ x. x ∷ s) ((==_iff c b'@').0 sign), inl begun, (unfold all in refl), domain)
  | inr other ↦
      let both : (not (is_space c) && is_address true s) ≡ true = rw other at h in
      let (visible, later) = and_split (not (is_space c)) (is_address true s) both in
      let (name, rest, e, _, plain, domain) = is_address_sound true s later in
      let first : is_plain c ≡ true = is_plain_of c other visible in
      (c ∷ name, rest, ap (λ t. c ∷ t) e, inr (λ e'. cc), all-cons c name first plain, domain)
]

not_started : {name : Text} → (false ≡ true) ⊎ (name ≢ []) → name ≢ []
not_started (inl e) = cc
not_started (inr n) = n

is_address_complete :
    (started : Bool) (name rest : Text)
    → (started ≡ true) ⊎ (name ≢ [])
    → all is_plain name ≡ true
    → is_domain rest ≡ true
    → is_address started (name ++ (b'@' ∷ rest)) ≡ true
unfolding is_address is_plain all
is_address_complete started [] rest (inl begun) h k = rw begun k
is_address_complete started [] rest (inr n) h k = absurd (n refl)
is_address_complete started (c ∷ name) rest n h k =
    ground (arith, is_address_complete true name rest (inl refl))

-- `isValidEmail` accepts exactly the texts of at most 254 code units that are a local part, an `@`
-- and a domain with an inner dot, without spaces and without another `@`.
pub is_valid_email_iff :
    (value : Text) → (is_valid_email value ≡ true) ↔ ((length value ≤ 254) × IsAddress value)
is_valid_email_iff value = (sound, complete)
  where
    sound : is_valid_email value ≡ true → (length value ≤ 254) × IsAddress value
    sound h =
        let both : (leb (length value) 254 && is_address false value) ≡ true =
          unfold is_valid_email in h in
        let (short, address) = and_split (leb (length value) 254) (is_address false value) both in
        let (name, rest, e, begun, plain, domain) = is_address_sound false value address in
        let (host, top, (split, (n, m), (k, l))) = is_domain_sound rest domain in
        let started : name ≢ [] = not_started begun in
        (
          ground arith,
          (name, host, top, e ∙ ap (λ t. name ++ (b'@' ∷ t)) split, (started, n, m), (plain, k, l)),
        )

    complete : (length value ≤ 254) × IsAddress value → is_valid_email value ≡ true
    complete (short, (name, host, top, e, (started, n, m), (plain, k, l))) =
        let address : is_address false value ≡ true = rw e (
          is_address_complete false name (host ++ (b'.' ∷ top)) (inr started) plain
            (is_domain_complete (host ++ (b'.' ∷ top)) host top (refl, (n, m), (k, l)))) in
        unfold is_valid_email in ground arith
