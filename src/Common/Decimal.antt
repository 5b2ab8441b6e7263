-- ===== src/Common/Decimal.antt =====
-- `String(n)` of a natural number, and the reading of decimal digits.
use Prim.Native.Char.{Char, code}
use Prim.Native.String.{String}
use Prim.Native.Nat.{ℕ, zero, suc, ◌+◌, ◌-◌, ◌*◌, ◌/◌, ◌%◌, ◌<◌}
use mathlib.Core.Path.{◌≡◌, refl, ap, ◌∙◌}
use mathlib.Core.Bool.{Bool, true, false, ◌&&◌}
use mathlib.Core.Logic.{inl, inr}
use mathlib.Core.Option.{Option, none, some}
use native.Mathlib.Omega.{arith}
use text.Mathlib.TextLemmas.{append_assoc, append-nil, cons-append, nil-append}
use inboxone.Common.Tests.{ltb, leb, if◌then◌else◌, Bool-cases}
use inboxone.Common.Text.{◌^^◌}

-- the digit of a number below ten
pub digit : ℕ → Char
digit zero = "0"
digit (suc zero) = "1"
digit (suc (suc zero)) = "2"
digit (suc (suc (suc zero))) = "3"
digit (suc (suc (suc (suc zero)))) = "4"
digit (suc (suc (suc (suc (suc zero))))) = "5"
digit (suc (suc (suc (suc (suc (suc zero)))))) = "6"
digit (suc (suc (suc (suc (suc (suc (suc zero))))))) = "7"
digit (suc (suc (suc (suc (suc (suc (suc (suc zero)))))))) = "8"
digit (suc (suc (suc (suc (suc (suc (suc (suc (suc n))))))))) = "9"

pub code-digit : (d : ℕ) → d < 10 → code (digit d) ≡ 48 + d
unfolding digit
code-digit zero h = refl
code-digit (suc zero) h = refl
code-digit (suc (suc zero)) h = refl
code-digit (suc (suc (suc zero))) h = refl
code-digit (suc (suc (suc (suc zero)))) h = refl
code-digit (suc (suc (suc (suc (suc zero))))) h = refl
code-digit (suc (suc (suc (suc (suc (suc zero)))))) h = refl
code-digit (suc (suc (suc (suc (suc (suc (suc zero))))))) h = refl
code-digit (suc (suc (suc (suc (suc (suc (suc (suc zero)))))))) h = refl
code-digit (suc (suc (suc (suc (suc (suc (suc (suc (suc zero))))))))) h = refl
code-digit (suc (suc (suc (suc (suc (suc (suc (suc (suc (suc d)))))))))) h = absurd (omega arith)

unfoldable pub one_char : Char → String
one_char c = String.◌∷◌ c String.[]

-- the digits of `n`, with fuel for one more than `n` rounds
unfoldable pub show_from : ℕ → ℕ → String
unfolding one_char digit
show_from zero n = String.[]
show_from (suc fuel) n =
    let front = show_from fuel (n / 10) in
    if ltb n 10 then one_char (digit n) else front ^^ one_char (digit (n % 10))

-- `String(n)`
unfoldable pub show : ℕ → String
unfolding show_from
show n = show_from (suc n) n

unfoldable pub is_digit : Char → Bool
is_digit c = leb 48 (code c) && leb (code c) 57

-- what follows a run of digits, and the number that the run continues
unfoldable pub scan : ℕ → String → ℕ × String
scan n String.[] = (n, String.[])
scan n (String.◌∷◌ c s) =
    if is_digit c then scan (n * 10 + (code c - 48)) s else (n, String.◌∷◌ c s)

whole : ℕ × String → Option ℕ
whole (n, String.[]) = some n
whole (n, String.◌∷◌ _ _) = none

-- `Number(s)` of a text of decimal digits, 0 at ""; `none` where the text holds another character
unfoldable pub number : String → Option ℕ
unfolding scan whole is_digit
number s = whole (scan 0 s)

is_digit-digit : (d : ℕ) → d < 10 → is_digit (digit d) ≡ true
unfolding is_digit
is_digit-digit d h = ground (arith, code-digit d h)

pub scan_stop :
    (n : ℕ) (c : Char) (t : String)
    → is_digit c ≡ false
    → scan n (String.◌∷◌ c t) ≡ (n, String.◌∷◌ c t)
unfolding scan
scan_stop n c t h = rw h

scan_step : (n d : ℕ) (t : String) → d < 10 → scan n (String.◌∷◌ (digit d) t) ≡ scan (n * 10 + d) t
unfolding scan
scan_step n d t h =
    let e : code (digit d) - 48 ≡ d = omega (arith, code-digit d h) in rw (is_digit-digit d h, e)

scan-digit :
    (n d : ℕ) (t : String) → d < 10 → scan n (one_char (digit d) ^^ t) ≡ scan (n * 10 + d) t
unfolding one_char
scan-digit n d t h = rw (cons-append, nil-append) (scan_step n d t h)

scan-show_from : (fuel n : ℕ) (t : String) → n < fuel → scan 0 (show_from fuel n ^^ t) ≡ scan n t
unfolding show_from
scan-show_from zero n t h = absurd (omega arith)
scan-show_from (suc fuel) n t h = elim (Bool-cases (ltb n 10)) [
  | inl small ↦ rw small (
      scan-digit 0 n t (ground arith)
      ∙ ap (λ k. scan k t) (let e : 0 * 10 + n ≡ n = omega arith in e))
  | inr large ↦
      rw (large, append_assoc)
        (scan-show_from fuel (n / 10) (one_char (digit (n % 10)) ^^ t) (ground arith)
          ∙ scan-digit (n / 10) (n % 10) t (omega arith)
          ∙ ap (λ k. scan k t) (let e : n / 10 * 10 + n % 10 ≡ n = omega arith in e))
]

-- The digits of a number are read back as that number, up to where they end.
pub scan-show : (n : ℕ) (t : String) → scan 0 (show n ^^ t) ≡ scan n t
unfolding show
scan-show n t = scan-show_from (suc n) n t (omega arith)

pub scan-show_end : (n : ℕ) → scan 0 (show n) ≡ (n, "")
unfolding scan
scan-show_end n = rw (← append-nil (show n)) (unfold scan in scan-show n "")

pub number-show : (n : ℕ) → number (show n) ≡ some n
unfolding number
number-show n = rw (scan-show_end n)

pub show_inj : (m n : ℕ) → show m ≡ show n → m ≡ n
show_inj m n h = cc (number-show m, number-show n, ap number h)

-- the text begins with a digit
abbrev pub StartsDigit : String → Type 0
StartsDigit s = (c : Char) × (t : String) × (s ≡ String.◌∷◌ c t) × (is_digit c ≡ true)

StartsDigit-digit : (d : ℕ) (t : String) → d < 10 → StartsDigit (one_char (digit d) ^^ t)
unfolding one_char
StartsDigit-digit d t h = (
  digit d,
  t,
  cons-append (digit d) "" t ∙ ap (String.◌∷◌ (digit d)) (nil-append t),
  is_digit-digit d h,
)

StartsDigit-show_from : (fuel n : ℕ) (t : String) → StartsDigit (show_from (suc fuel) n ^^ t)
unfolding show_from
StartsDigit-show_from zero n t = elim (Bool-cases (ltb n 10)) [
  | inl small ↦ rw small (StartsDigit-digit n t (ground arith))
  | inr large ↦ rw (large, append_assoc, nil-append) (StartsDigit-digit (n % 10) t (omega arith))
]
StartsDigit-show_from (suc fuel) n t = elim (Bool-cases (ltb n 10)) [
  | inl small ↦ rw small (StartsDigit-digit n t (ground arith))
  | inr large ↦
      rw (large, append_assoc)
        (StartsDigit-show_from fuel (n / 10) (one_char (digit (n % 10)) ^^ t))
]

pub StartsDigit-show : (n : ℕ) (t : String) → StartsDigit (show n ^^ t)
unfolding show
StartsDigit-show n t = StartsDigit-show_from n n t

show_tests : (show 0 ≡ "0") × (show 4096 ≡ "4096") × (number "" ≡ some 0) × (number "1,2" ≡ none)
unfolding show number
show_tests = (refl, refl, refl, refl)
