-- ===== src/Common/Split.antt =====
-- `s.split(c)` for a separator of one character, and lists of numbers written with one.
use Prim.Native.Char.{Char, code}
use Prim.Native.String.{String}
use Prim.Native.Nat.{ℕ, zero, suc, ◌/◌, ◌%◌, ◌<◌}
use mathlib.Core.Path.{◌≡◌, refl, ap, ◌∙◌}
use mathlib.Core.Logic.{◌≢◌, inl, inr}
use mathlib.Core.Bool.{true}
use mathlib.Core.List.{List, [], ◌∷◌, map, filter_map}
use native.Mathlib.Omega.{arith}
use text.Mathlib.TextLemmas.{cons-append, nil-append}
use inboxone.Common.Tests.{◌==◌, ltb, if◌then◌else◌, Bool-cases}
use inboxone.Common.Lists.{filter}
use inboxone.Common.Text.{◌^^◌, join, filled}
use inboxone.Common.Decimal.{show, show_from, one_char, digit, code-digit, number, number-show}

abbrev pub grow : Char → List String → List String
grow c [] = one_char c ∷ []
grow c (w ∷ ws) = String.◌∷◌ c w ∷ ws

unfoldable pub split : ℕ → String → List String
split sep String.[] = "" ∷ []
split sep (String.◌∷◌ c s) =
    let rest = split sep s in if code c == sep then "" ∷ rest else grow c rest

-- the text holds no separator
abbrev pub IsFree : ℕ → String → Type 0
IsFree sep String.[] = Unit
IsFree sep (String.◌∷◌ c s) = (code c ≢ sep) × IsFree sep s

pub IsFree-append : (sep : ℕ) (s t : String) → IsFree sep s → IsFree sep t → IsFree sep (s ^^ t)
IsFree-append sep String.[] t h k = rw nil-append k
IsFree-append sep (String.◌∷◌ c s) t h k = rw cons-append (h.0, IsFree-append sep s t h.1 k)

IsFree-digit : (sep d : ℕ) → sep < 48 → d < 10 → IsFree sep (one_char (digit d))
unfolding one_char
IsFree-digit sep d h k = (let e = code-digit d k in omega arith, tt)

IsFree-show_from : (sep fuel n : ℕ) → sep < 48 → IsFree sep (show_from fuel n)
unfolding show_from
IsFree-show_from sep zero n h = tt
IsFree-show_from sep (suc fuel) n h = elim (Bool-cases (ltb n 10)) [
  | inl small ↦ rw small (IsFree-digit sep n h (ground arith))
  | inr large ↦ rw large (
      IsFree-append sep (show_from fuel (n / 10)) (one_char (digit (n % 10)))
        (IsFree-show_from sep fuel (n / 10) h) (IsFree-digit sep (n % 10) h (omega arith)))
]

pub IsFree-show : (sep n : ℕ) → sep < 48 → IsFree sep (show n)
unfolding show
IsFree-show sep n h = IsFree-show_from sep (suc n) n h

pub split_one : (sep : ℕ) (s : String) → IsFree sep s → split sep s ≡ s ∷ []
unfolding split
split_one sep String.[] h = refl
split_one sep (String.◌∷◌ c s) h = rw (split_one sep s h.1) (ground arith)

pub split_cons :
    (sep : ℕ) (s : String) (c : Char) (t : String)
    → code c ≡ sep
    → IsFree sep s
    → split sep (s ^^ String.◌∷◌ c t) ≡ s ∷ split sep t
unfolding split
split_cons sep String.[] c t e h = rw nil-append (ground arith)
split_cons sep (String.◌∷◌ b s) c t e h =
    rw (cons-append, split_cons sep s c t e h.1) (ground arith)

abbrev comma : Char
comma = ","

-- numbers that are joined by commas are split again
split-join-show :
    (n : ℕ) (ns : List ℕ) → split b',' (join "," (map show (n ∷ ns))) ≡ map show (n ∷ ns)
split-join-show n [] = split_one b',' (show n) (IsFree-show b',' n (omega arith))
split-join-show n (k ∷ ns) =
    let glue : "," ^^ join "," (map show (k ∷ ns))
        ≡ String.◌∷◌ comma (join "," (map show (k ∷ ns))) =
      cons-append comma "" _ ∙ ap (String.◌∷◌ comma) (nil-append _) in
    ap (λ t. split b',' (show n ^^ t)) glue
    ∙ split_cons b',' (show n) comma _ refl (IsFree-show b',' n (omega arith))
    ∙ ap (◌∷◌ (show n)) (split-join-show k ns)

filled-append : (s : String) (c : Char) → filled (s ^^ one_char c) ≡ true
unfolding one_char
filled-append String.[] c = rw nil-append
filled-append (String.◌∷◌ b s) c = rw cons-append

filled-show_from : (fuel n : ℕ) → filled (show_from (suc fuel) n) ≡ true
unfolding show_from
filled-show_from fuel n = elim (Bool-cases (ltb n 10)) [
  | inl small ↦ rw small (unfold one_char in refl)
  | inr large ↦ rw large (filled-append (show_from fuel (n / 10)) (digit (n % 10)))
]

filled-show : (n : ℕ) → filled (show n) ≡ true
unfolding show
filled-show n = filled-show_from n n

filter-filled-show : (ns : List ℕ) → filter filled (map show ns) ≡ map show ns
filter-filled-show [] = refl
filter-filled-show (n ∷ ns) = rw (filled-show n, filter-filled-show ns)

filter_map-number-show : (ns : List ℕ) → filter_map number (map show ns) ≡ ns
unfolding filter_map
filter_map-number-show [] = refl
filter_map-number-show (n ∷ ns) = rw (number-show n, filter_map-number-show ns)

-- `s.split(",").filter(Boolean).map(Number)`, without the pieces that are no number
unfoldable pub numbers : String → List ℕ
unfolding filter_map
numbers s = filter_map number (filter filled (split b',' s))

pub numbers-join : (ns : List ℕ) → numbers (join "," (map show ns)) ≡ ns
unfolding numbers
numbers-join [] = unfold split in refl
numbers-join (n ∷ ns) =
    ap (λ ws. filter_map number (filter filled ws)) (split-join-show n ns)
    ∙ ap (filter_map number) (filter-filled-show (n ∷ ns))
    ∙ filter_map-number-show (n ∷ ns)
