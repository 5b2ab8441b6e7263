-- ===== src/Common/Numeral.antt =====
-- `Number(s)` of the texts that a number field of a form can hold: decimal numerals with a sign, a fraction and an
-- exponent. They are read exactly, and only those that are natural numbers are of interest to the program.
use Prim.Native.Char.{Char, code}
use Prim.Native.String.{String}
use Prim.Native.Nat.{ℕ, zero, suc, ◌+◌, ◌-◌, ◌*◌, ◌/◌, ◌%◌, ◌^◌, ◌≤◌}
use mathlib.Core.Path.{◌≡◌, refl, sym, ap, ◌∙◌}
use mathlib.Core.Bool.{Bool, true, false, ◌||◌}
use mathlib.Core.Option.{Option, none, some}
use mathlib.Core.Logic.{inl, inr}
use native.Mathlib.Omega.{arith}
use inboxone.Common.Tests.{◌==◌, if◌then◌else◌, Bool-cases}
use text.Mathlib.TextLemmas.{append-nil}
use inboxone.Common.Decimal.{is_digit, scan, show, scan-show_end, StartsDigit-show}

-- a run of digits, read on from a number and a count of digits
unfoldable pub scan_digits : ℕ → ℕ → String → ℕ × ℕ × String
scan_digits n k String.[] = (n, k, String.[])
scan_digits n k (String.◌∷◌ c s) =
    if is_digit c then scan_digits (n * 10 + (code c - 48)) (k + 1) s else (n, k, String.◌∷◌ c s)

-- a numeral without its sign: `digits / 10 ^ decimals * 10 ^ up / 10 ^ down`
pub record Numeral : Type 0 where
  pub digits : ℕ
  pub decimals : ℕ
  pub up : ℕ
  pub down : ℕ

exponent_digits : (is_negative : Bool) → Numeral → ℕ × ℕ × String → Option Numeral
exponent_digits is_negative m (n, zero, rest) = none
exponent_digits is_negative m (n, suc k, String.◌∷◌ c rest) = none
exponent_digits true m (n, suc k, String.[]) = some (record m { down = n })
exponent_digits false m (n, suc k, String.[]) = some (record m { up = n })

signed_exponent : Numeral → String → Option Numeral
unfolding exponent_digits scan_digits
signed_exponent m String.[] = none
signed_exponent m (String.◌∷◌ c s) =
    if code c == b'-'
    then exponent_digits true m (scan_digits 0 0 s)
    else if code c == b'+'
    then exponent_digits false m (scan_digits 0 0 s)
    else exponent_digits false m (scan_digits 0 0 (String.◌∷◌ c s))

exponent : Numeral → String → Option Numeral
unfolding signed_exponent
exponent m String.[] = some m
exponent m (String.◌∷◌ c s) = if code c == b'e' || code c == b'E' then signed_exponent m s else none

-- after the fraction; `k` digits stand before it
after_fraction : ℕ → ℕ × ℕ × String → Option Numeral
unfolding exponent
after_fraction k (n, decimals, rest) =
    if k + decimals == 0
    then none
    else exponent (record { digits = n; decimals = decimals; up = 0; down = 0 }) rest

after_whole : ℕ × ℕ × String → Option Numeral
unfolding after_fraction scan_digits
after_whole (n, k, String.[]) = after_fraction k (n, 0, String.[])
after_whole (n, k, String.◌∷◌ c rest) =
    if code c == b'.'
    then after_fraction k (scan_digits n 0 rest)
    else after_fraction k (n, 0, String.◌∷◌ c rest)

natural : Option Numeral → Option ℕ
natural none = none
natural (some m) =
    let above = m.digits * 10 ^ m.up in
    let below = 10 ^ (m.decimals + m.down) in
    if above % below == 0 then some (above / below) else none

-- a negative number is a natural one only if it is zero
negate : Option ℕ → Option ℕ
negate none = none
negate (some zero) = some 0
negate (some (suc _)) = none

-- the natural number that a text stands for, `none` if it stands for none; 0 at ""
unfoldable pub to_natural : String → Option ℕ
unfolding after_whole natural negate scan_digits
to_natural String.[] = some 0
to_natural (String.◌∷◌ c s) =
    if code c == b'-'
    then negate (natural (after_whole (scan_digits 0 0 s)))
    else natural (after_whole (scan_digits 0 0 (String.◌∷◌ c s)))

tests :
    (to_natural "15" ≡ some 15)
    × (to_natural "1.5e1" ≡ some 15)
    × (to_natural "1500E-2" ≡ some 15)
    × (to_natural ".5" ≡ none)
    × (to_natural "-0" ≡ some 0)
    × (to_natural "-3" ≡ none)
    × (to_natural "." ≡ none)
    × (to_natural "1e" ≡ none)
unfolding to_natural is_digit
tests = (refl, refl, refl, refl, refl, refl, refl, refl)

scan_digits-scan :
    (n k : ℕ) (s : String)
    → ((scan_digits n k s).0 ≡ (scan n s).0)
      × ((scan_digits n k s).2 ≡ (scan n s).1)
      × (k ≤ (scan_digits n k s).1)
unfolding scan_digits scan
scan_digits-scan n k String.[] = (refl, refl, omega arith)
scan_digits-scan n k (String.◌∷◌ c s) =
    let (number, rest, count) = scan_digits-scan (n * 10 + (code c - 48)) (k + 1) s in
    elim (Bool-cases (is_digit c)) [
      | inl more ↦ rw more (number, rest, omega arith)
      | inr stop ↦ rw stop (refl, refl, omega arith)
    ]

-- no fraction and no exponent
natural-plain :
    (n : ℕ) (r : ℕ × ℕ × String) → r.0 ≡ n → 1 ≤ r.1 → r.2 ≡ "" → natural (after_whole r) ≡ some n
unfolding natural after_whole after_fraction exponent
natural-plain n (m, zero, rest) e h f = absurd (omega arith)
natural-plain n (m, suc j, String.[]) e h f = ground arith
natural-plain n (m, suc j, String.◌∷◌ c rest) e h f = cc

no_minus : (c : Char) → is_digit c ≡ true → (code c == b'-') ≡ false
unfolding is_digit
no_minus c d = ground arith

scan_digits-count :
    (c : Char) (t : String) → is_digit c ≡ true → 1 ≤ (scan_digits 0 0 (String.◌∷◌ c t)).1
unfolding scan_digits
scan_digits-count c t d =
    rw d (omega (arith, (scan_digits-scan (0 * 10 + (code c - 48)) (0 + 1) t).2))

to_natural-digits :
    (n : ℕ) (c : Char) (t : String)
    → is_digit c ≡ true
    → scan 0 (String.◌∷◌ c t) ≡ (n, "")
    → to_natural (String.◌∷◌ c t) ≡ some n
unfolding to_natural
to_natural-digits n c t d e =
    let (number, rest, count) = scan_digits-scan 0 0 (String.◌∷◌ c t) in
    let no_sign : (code c == b'-') ≡ false = no_minus c d in
    rw no_sign (
      natural-plain n (scan_digits 0 0 (String.◌∷◌ c t)) (number ∙ ap (λ p. p.0) e)
        (scan_digits-count c t d) (rest ∙ ap (λ p. p.1) e))

-- What `String(n)` makes of a natural number is read back as that number.
pub to_natural-show : (n : ℕ) → to_natural (show n) ≡ some n
to_natural-show n =
    let (c, t, e, d) = StartsDigit-show n "" in
    let same : show n ≡ String.◌∷◌ c t = sym (append-nil (show n)) ∙ e in
    ap to_natural same ∙ to_natural-digits n c t d (ap (scan 0) (sym same) ∙ scan-show_end n)
