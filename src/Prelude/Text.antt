-- ===== src/Prelude/Text.antt =====
-- Text as the list of its code points, and the standard library's functions on it that the code calls.
use Prim.Native.Char.{code}
use Prim.Native.String.{String}
use Prim.Native.Nat.{ℕ, ◌-◌, ◌<◌}
use mathlib.Core.Path.{◌≡◌, refl}
use mathlib.Core.Logic.{◌≢◌, ◌↔◌}
use mathlib.Core.Bool.{Bool, true, false, ◌&&◌}
use mathlib.Core.Option.{Option, none, some}
use mathlib.Core.List.{List, [], ◌∷◌, ◌++◌}
use native.Mathlib.Omega.{arith}
use stm32wb_hci.Prelude.Tests.{◌==◌, ==_iff, if◌then◌else◌, is_some}
use stm32wb_hci.Prelude.Lists.{length, take, drop}
use stm32wb_hci.Prelude.Bytes.{All}

abbrev pub Text : Type 0
Text = List ℕ

abbrev pub codes : String → Text
codes String.[] = []
codes (String.◌∷◌ c s) = code c ∷ codes s

unfoldable pub same_text : Text → Text → Bool
same_text [] [] = true
same_text [] (d ∷ t) = false
same_text (c ∷ s) [] = false
same_text (c ∷ s) (d ∷ t) = (c == d) && same_text s t

pub same_text_iff : (s t : Text) → (same_text s t ≡ true) ↔ (s ≡ t)
unfolding same_text
same_text_iff [] [] = (λ h. refl, λ h. refl)
same_text_iff [] (d ∷ t) = (λ h. cc, λ h. cc)
same_text_iff (c ∷ s) [] = (λ h. cc, λ h. cc)
same_text_iff (c ∷ s) (d ∷ t) = ground (arith, ==_iff c d, same_text_iff s t)

pub same_text_refl : (t : Text) → same_text t t ≡ true
same_text_refl t = (same_text_iff t t).1 refl

-- `str::strip_prefix`
unfoldable pub strip_prefix : Text → Text → Option Text
strip_prefix [] text = some text
strip_prefix (c ∷ prefix) [] = none
strip_prefix (c ∷ prefix) (d ∷ text) =
    let rest = strip_prefix prefix text in if c == d then rest else none

pub strip_prefix-append : (prefix text : Text) → strip_prefix prefix (prefix ++ text) ≡ some text
unfolding strip_prefix
strip_prefix-append [] text = refl
strip_prefix-append (c ∷ prefix) text =
    let same : (c == c) ≡ true = (==_iff c c).1 refl in rw same (strip_prefix-append prefix text)

-- `str::strip_suffix`
unfoldable pub strip_suffix : Text → Text → Option Text
strip_suffix suffix text =
    if same_text (drop (length text - length suffix) text) suffix
    then some (take (length text - length suffix) text)
    else none

abbrev pub ends_with : Text → Text → Bool
ends_with suffix text = is_some (strip_suffix suffix text)

-- What stands behind the first `phrase` in the text: `&text[text.find(phrase)? + phrase.len()..]`.
unfoldable pub behind : Text → Text → Option Text
behind phrase [] = strip_prefix phrase []
behind phrase (c ∷ text) =
    let later = behind phrase text in
    elim (strip_prefix phrase (c ∷ text)) [ some rest ↦ some rest | none ↦ later ]

-- `str::contains`
abbrev pub contains_text : Text → Text → Bool
contains_text phrase text = is_some (behind phrase text)

abbrev pub cons_left : ℕ → Option (Text × Text) → Option (Text × Text)
cons_left c none = none
cons_left c (some (before, rest)) = some (c ∷ before, rest)

-- `str::split_once` and `str::rsplit_once`, by a text.
unfoldable pub split_once : Text → Text → Option (Text × Text)
split_once sep [] = none
split_once sep (c ∷ text) =
    let later = split_once sep text in
    elim (strip_prefix sep (c ∷ text)) [ some rest ↦ some ([], rest) | none ↦ cons_left c later ]

unfoldable pub rsplit_once : Text → Text → Option (Text × Text)
rsplit_once sep [] = none
rsplit_once sep (c ∷ text) = elim (rsplit_once sep text) [
  | some (before, rest) ↦ some (c ∷ before, rest)
  | none ↦ elim (strip_prefix sep (c ∷ text)) [ some rest ↦ some ([], rest) | none ↦ none ]
]

-- `str::split` by the characters that a test takes: at least one piece.
abbrev pub cons_piece : ℕ → List Text → List Text
cons_piece c [] = (c ∷ []) ∷ []
cons_piece c (piece ∷ pieces) = (c ∷ piece) ∷ pieces

unfoldable pub split : (ℕ → Bool) → Text → List Text
split is_separator [] = [] ∷ []
split is_separator (c ∷ text) =
    let pieces = split is_separator text in
    if is_separator c then [] ∷ pieces else cons_piece c pieces

-- A text without a separator is one piece, and the piece up to a separator.
pub split-piece :
    (is_separator : ℕ → Bool) (text : Text)
    → All (λ c. is_separator c ≡ false) text
    → split is_separator text ≡ text ∷ []
unfolding split
split-piece is_separator [] h = refl
split-piece is_separator (c ∷ text) h = rw (h.0, split-piece is_separator text h.1) refl

pub split-append :
    (is_separator : ℕ → Bool) (text rest : Text) (c : ℕ)
    → All (λ c. is_separator c ≡ false) text
    → is_separator c ≡ true
    → split is_separator (text ++ (c ∷ rest)) ≡ text ∷ split is_separator rest
unfolding split
split-append is_separator [] rest c h s = rw s refl
split-append is_separator (d ∷ text) rest c h s =
    rw (h.0, split-append is_separator text rest c h.1 s) refl

pub All-append {ℓ κ} :
    {A : Type ℓ} (P : A → Type κ) (xs ys : List A) → All P xs → All P ys → All P (xs ++ ys)
All-append P [] ys h k = k
All-append P (x ∷ xs) ys h k = (h.0, All-append P xs ys h.1 k)

pub All-weaken {ℓ κ μ} :
    {A : Type ℓ} (P : A → Type κ) (Q : A → Type μ) (xs : List A)
    → ((a : A) → P a → Q a)
    → All P xs
    → All Q xs
All-weaken P Q [] f h = tt
All-weaken P Q (x ∷ xs) f h = (f x h.0, All-weaken P Q xs f h.1)

strip_prefix-first :
    (c : ℕ) (sep text : Text) → strip_prefix (c ∷ sep) (c ∷ (sep ++ text)) ≡ some text
strip_prefix-first c sep text = strip_prefix-append (c ∷ sep) text

strip_prefix-other : (c d : ℕ) (sep text : Text) → d ≢ c → strip_prefix (c ∷ sep) (d ∷ text) ≡ none
unfolding strip_prefix
strip_prefix-other c d sep text ne =
    let other : (c == d) ≡ false = ground (arith, ne) in rw other refl

-- `sep` is one character and another text; the text before it has none of that character.
pub split_once-append :
    (c : ℕ) (sep text rest : Text)
    → All (λ d. d ≢ c) text
    → split_once (c ∷ sep) (text ++ (c ∷ (sep ++ rest))) ≡ some (text, rest)
unfolding split_once
split_once-append c sep [] rest h = rw (split_once, strip_prefix-first c sep rest) refl
split_once-append c sep (d ∷ text) rest h =
    rw
      (
        split_once,
        strip_prefix-other c d sep (text ++ (c ∷ (sep ++ rest))) h.0,
        split_once-append c sep text rest h.1,
      )
      refl

pub split_once-none :
    (c : ℕ) (sep text : Text) → All (λ d. d ≢ c) text → split_once (c ∷ sep) text ≡ none
unfolding split_once
split_once-none c sep [] h = refl
split_once-none c sep (d ∷ text) h =
    rw (split_once, strip_prefix-other c d sep text h.0, split_once-none c sep text h.1) refl

abbrev pub prepend : Text → Option (Text × Text) → Option (Text × Text)
prepend xs none = none
prepend xs (some (before, rest)) = some (xs ++ before, rest)

cons_left-prepend :
    (d : ℕ) (xs : Text) (o : Option (Text × Text)) → cons_left d (prepend xs o) ≡ prepend (d ∷ xs) o
cons_left-prepend d xs none = refl
cons_left-prepend d xs (some (before, rest)) = refl

prepend_nil : (o : Option (Text × Text)) → o ≡ prepend [] o
prepend_nil none = refl
prepend_nil (some (before, rest)) = refl

-- The search for a separator passes text without its first character,
pub split_once-pass :
    (c : ℕ) (sep xs text : Text)
    → All (λ d. d ≢ c) xs
    → split_once (c ∷ sep) (xs ++ text) ≡ prepend xs (split_once (c ∷ sep) text)
unfolding split_once
split_once-pass c sep [] text h = prepend_nil (split_once (c ∷ sep) text)
split_once-pass c sep (d ∷ xs) text h =
    rw (split_once, strip_prefix-other c d sep (xs ++ text) h.0, split_once-pass c sep xs text h.1)
      (cons_left-prepend d xs (split_once (c ∷ sep) text))

strip_prefix-half :
    (c d : ℕ) (sep text : Text) → d ≢ c → strip_prefix (c ∷ c ∷ sep) (c ∷ d ∷ text) ≡ none
unfolding strip_prefix
strip_prefix-half c d sep text ne =
    let same : (c == c) ≡ true = (==_iff c c).1 refl in
    let other : (c == d) ≡ false = ground (arith, ne) in rw (same, other) refl

-- and, where it begins with one character twice, that character alone.
pub split_once-half :
    (c : ℕ) (sep xs text : Text)
    → All (λ d. d ≢ c) xs
    → 0 < length xs
    → split_once (c ∷ c ∷ sep) (c ∷ (xs ++ text)) ≡ prepend (c ∷ xs) (split_once (c ∷ c ∷ sep) text)
unfolding split_once
split_once-half c sep [] text h k = absurd (omega (arith, k))
split_once-half c sep (d ∷ xs) text h k =
    rw
      (
        split_once,
        strip_prefix-half c d sep (xs ++ text) h.0,
        split_once-pass c (c ∷ sep) (d ∷ xs) text h,
      )
      (cons_left-prepend c (d ∷ xs) (split_once (c ∷ c ∷ sep) text))

pub strip_prefix_sound :
    (prefix text rest : Text) → strip_prefix prefix text ≡ some rest → text ≡ prefix ++ rest
unfolding strip_prefix
strip_prefix_sound [] text rest h = cc
strip_prefix_sound (c ∷ prefix) [] rest h = cc
strip_prefix_sound (c ∷ prefix) (d ∷ text) rest h =
    let (same, found) : (c ≡ d) × (strip_prefix prefix text ≡ some rest) = ground (arith, h) in
    let behind : text ≡ prefix ++ rest = strip_prefix_sound prefix text rest found in cc
