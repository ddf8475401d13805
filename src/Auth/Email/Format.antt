-- ===== src/Auth/Email/Format.antt =====
-- What the pattern of an e-mail address accepts, and that creating an address twice changes nothing.
use mathlib.Core.List.{reverse, reverse-cons, reverse-reverse}
use flatrent.Base.{
  ℕ, ◌≡◌, ◌↔◌, refl, sym, ap, ◌∙◌, true, false, List, [], ◌∷◌, ◌++◌, All, All-append, ok, length,
  arith, inl, inr, Bool-cases, ◌==◌,
}
use flatrent.Base.Text.{is_space, trim, trim_start, to_lower_case, lower}
use flatrent.Auth.Email.{
  is_word, only_words, dotted, is_domain, ends_in_domain, is_email, create_email,
}

-- A text of one or more characters that are neither white space nor the at sign.
abbrev pub IsWords : List ℕ → Type 0
IsWords [] = ⊥
IsWords (c ∷ s) = (is_word c ≡ true) × (only_words s ≡ true)

-- The text is a local part, an at sign, and two parts with a dot between.
abbrev pub IsEmail : List ℕ → Type 0
IsEmail s =
    (a : List ℕ) × (b : List ℕ) × (c : List ℕ) × (s ≡ a ++ (b'@' ∷ (b ++ (b'.' ∷ c))))
    × IsWords a
    × IsWords b
    × IsWords c

only_words-IsWords : (s : List ℕ) → (length s == 0) ≡ false → only_words s ≡ true → IsWords s
unfolding only_words
only_words-IsWords [] n h = ground arith
only_words-IsWords (c ∷ s) n h = ground arith

IsWords-only_words : (s : List ℕ) → IsWords s → ((length s == 0) ≡ false) × (only_words s ≡ true)
unfolding only_words
IsWords-only_words [] h = absurd h
IsWords-only_words (c ∷ s) h = ground arith

dotted-split :
    (s : List ℕ)
    → dotted s ≡ true
    → (b : List ℕ) × (c : List ℕ) × (s ≡ b ++ (b'.' ∷ c)) × (only_words b ≡ true) × IsWords c
unfolding dotted only_words
dotted-split [] h = absurd (ground arith)
dotted-split (x ∷ s) h = elim (Bool-cases (dotted s)) [
  | inl later ↦
      let (b, c, e, wb, wc) = dotted-split s later in (x ∷ b, c, ap (◌∷◌ x) e, ground arith, wc)
  | inr here ↦ ([], s, ground arith, refl, only_words-IsWords s (ground arith) (ground arith))
]

dotted-intro : (b c : List ℕ) → only_words b ≡ true → IsWords c → dotted (b ++ (b'.' ∷ c)) ≡ true
unfolding dotted only_words is_word is_space
dotted-intro [] c wb wc = ground (arith, IsWords-only_words c wc)
dotted-intro (x ∷ b) c wb wc = ground (arith, dotted-intro b c)

domain-split :
    (s : List ℕ)
    → is_domain s ≡ true
    → (b : List ℕ) × (c : List ℕ) × (s ≡ b ++ (b'.' ∷ c)) × IsWords b × IsWords c
unfolding is_domain
domain-split [] h = absurd (ground arith)
domain-split (x ∷ s) h =
    let (b, c, e, wb, wc) = dotted-split s (ground arith) in
    (x ∷ b, c, ap (◌∷◌ x) e, ground arith, wc)

domain-intro : (b c : List ℕ) → IsWords b → IsWords c → is_domain (b ++ (b'.' ∷ c)) ≡ true
unfolding is_domain
domain-intro [] c wb wc = absurd wb
domain-intro (x ∷ b) c wb wc = ground (arith, dotted-intro b c)

ends-split :
    (s : List ℕ)
    → ends_in_domain s ≡ true
    → (a : List ℕ) × (b : List ℕ) × (c : List ℕ) × (s ≡ a ++ (b'@' ∷ (b ++ (b'.' ∷ c))))
      × (only_words a ≡ true)
      × IsWords b
      × IsWords c
unfolding ends_in_domain only_words
ends-split [] h = absurd (ground arith)
ends-split (x ∷ s) h = elim (Bool-cases (is_domain s)) [
  | inl now ↦ elim (Bool-cases (x == b'@')) [
    | inl at ↦
        let (b, c, e, wb, wc) = domain-split s now in
        let same : x ≡ b'@' = ground arith in ([], b, c, rw same (ap (◌∷◌ b'@') e), refl, wb, wc)
    | inr word ↦
        let (a, b, c, e, wa, wb, wc) = ends-split s (ground arith) in
        (x ∷ a, b, c, ap (◌∷◌ x) e, ground arith, wb, wc)
  ]
  | inr later ↦
      let (a, b, c, e, wa, wb, wc) = ends-split s (ground arith) in
      (x ∷ a, b, c, ap (◌∷◌ x) e, ground arith, wb, wc)
]

ends-intro :
    (a b c : List ℕ)
    → only_words a ≡ true
    → IsWords b
    → IsWords c
    → ends_in_domain (a ++ (b'@' ∷ (b ++ (b'.' ∷ c)))) ≡ true
unfolding ends_in_domain only_words
ends-intro [] b c wa wb wc = ground (arith, domain-intro b c wb wc)
ends-intro (x ∷ a) b c wa wb wc = ground (arith, ends-intro a b c)

is_email-split : (s : List ℕ) → is_email s ≡ true → IsEmail s
unfolding is_email
is_email-split [] h = absurd (ground arith)
is_email-split (x ∷ s) h =
    let (a, b, c, e, wa, wb, wc) = ends-split s (ground arith) in
    (x ∷ a, b, c, ap (◌∷◌ x) e, ground arith, wb, wc)

is_email-intro :
    (a b c : List ℕ)
    → IsWords a
    → IsWords b
    → IsWords c
    → is_email (a ++ (b'@' ∷ (b ++ (b'.' ∷ c)))) ≡ true
unfolding is_email
is_email-intro [] b c wa wb wc = absurd wa
is_email-intro (x ∷ a) b c wa wb wc = ground (arith, ends-intro a b c wa.1 wb wc)

-- The scan accepts a text exactly if it can be split into a local part, an at sign, and two parts with
-- a dot between, each part of one or more characters that are neither white space nor the at sign.
pub is_email_iff : (s : List ℕ) → (is_email s ≡ true) ↔ IsEmail s
is_email_iff s =
    (is_email-split s, λ (a, b, c, e, wa, wb, wc). ap is_email e ∙ is_email-intro a b c wa wb wc)

-- No character is white space.
abbrev pub IsTight : List ℕ → Type 0
IsTight = All (λ c. is_space c ≡ false)

only_words-IsTight : (s : List ℕ) → only_words s ≡ true → IsTight s
unfolding only_words is_word
only_words-IsTight [] h = tt
only_words-IsTight (c ∷ s) h = (ground arith, only_words-IsTight s (ground arith))

dotted-IsTight : (s : List ℕ) → dotted s ≡ true → IsTight s
unfolding dotted is_word
dotted-IsTight [] h = tt
dotted-IsTight (c ∷ s) h = elim (Bool-cases (dotted s)) [
  | inl later ↦ (ground arith, dotted-IsTight s later)
  | inr here ↦ (ground arith, only_words-IsTight s (ground arith))
]

domain-IsTight : (s : List ℕ) → is_domain s ≡ true → IsTight s
unfolding is_domain is_word
domain-IsTight [] h = tt
domain-IsTight (c ∷ s) h = (ground arith, dotted-IsTight s (ground arith))

at_sign-is_space : is_space b'@' ≡ false
unfolding is_space
at_sign-is_space = refl

ends-IsTight : (s : List ℕ) → ends_in_domain s ≡ true → IsTight s
unfolding ends_in_domain is_word
ends-IsTight [] h = tt
ends-IsTight (c ∷ s) h = elim (Bool-cases (c == b'@')) [
  | inl at ↦
      let same : c ≡ b'@' = ground arith in
      let tight : is_space c ≡ false = rw same at_sign-is_space in
      elim (Bool-cases (is_domain s)) [
        | inl now ↦ (tight, domain-IsTight s now)
        | inr later ↦ (tight, ends-IsTight s (ground arith))
      ]
  | inr word ↦ (ground arith, ends-IsTight s (ground arith))
]

is_email-IsTight : (s : List ℕ) → is_email s ≡ true → IsTight s
unfolding is_email is_word
is_email-IsTight [] h = tt
is_email-IsTight (c ∷ s) h = (ground arith, ends-IsTight s (ground arith))

trim_start-IsTight : (s : List ℕ) → IsTight s → trim_start s ≡ s
unfolding trim_start
trim_start-IsTight [] h = refl
trim_start-IsTight (c ∷ s) h = ground (arith, h.0)

reverse-IsTight : (s : List ℕ) → IsTight s → IsTight (reverse s)
reverse-IsTight [] h = tt
reverse-IsTight (c ∷ s) h =
    rw (reverse-cons c s)
      (All-append (λ d. is_space d ≡ false) (reverse s) (c ∷ []) (reverse-IsTight s h.1) (h.0, tt))

trim-IsTight : (s : List ℕ) → IsTight s → trim s ≡ s
unfolding trim
trim-IsTight s h =
    ap (λ t. reverse (trim_start (reverse t))) (trim_start-IsTight s h)
    ∙ ap reverse (trim_start-IsTight (reverse s) (reverse-IsTight s h))
    ∙ reverse-reverse s

lower-lower : (c : ℕ) → lower (lower c) ≡ lower c
unfolding lower
lower-lower c = ground arith

to_lower_case-to_lower_case : (s : List ℕ) → to_lower_case (to_lower_case s) ≡ to_lower_case s
unfolding to_lower_case
to_lower_case-to_lower_case [] = refl
to_lower_case-to_lower_case (c ∷ s) = ground (arith, lower-lower c, to_lower_case-to_lower_case s)

create_email-lower :
    (v n : List ℕ) → create_email v ≡ ok n → (n ≡ to_lower_case (trim v)) × (is_email n ≡ true)
unfolding create_email
create_email-lower v n e = ground arith

-- An address that was created is an address, and creating it again from its own value gives the same:
-- what is stored of it is what is loaded.
pub create_email-create_email :
    (v n : List ℕ) → create_email v ≡ ok n → IsEmail n × (create_email n ≡ ok n)
unfolding create_email is_email
create_email-create_email v n e =
    let (same, good) = create_email-lower v n e in
    let kept : trim n ≡ n = trim-IsTight n (is_email-IsTight n good) in
    let low : to_lower_case n ≡ n =
      ap to_lower_case same ∙ to_lower_case-to_lower_case (trim v) ∙ sym same in
    (is_email-split n good, ground (arith, kept, low, good))
