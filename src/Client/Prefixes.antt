-- ===== src/Client/Prefixes.antt =====
-- Paths with a common beginning (`describe` of frontend/src/api/client.ts).
use Prim.Native.Char.{code}
use text.Mathlib.TextLemmas.{cons-append, nil-append}
use inboxone.Common.{
  ℕ, ◌≡◌, refl, sym, ap, ◌∙◌, inl, inr, String, Bool, true, false, none, some, arith, ◌==◌, ==_refl,
  if◌then◌else◌, str_eq, str_eq_iff, Bool-cases, ◌^^◌,
}
use inboxone.Common.Decimal.{show, scan, StartsDigit, StartsDigit-show, scan-show}
use inboxone.Client.{strip, after_number, match_number, match_rest, match_id}

strip_self : (p : String) → strip p p ≡ some ""
unfolding strip
strip_self String.[] = refl
strip_self (String.◌∷◌ c p) = rw (==_refl (code c), strip_self p)

pub strip-append : (p s : String) → strip p (p ^^ s) ≡ some s
unfolding strip
strip-append String.[] s = rw nil-append
strip-append (String.◌∷◌ c p) s = rw (cons-append, ==_refl (code c), strip-append p s)

-- a text with a prefix that another text does not have differs from it
pub str_eq-strip : (q s t : String) → strip q t ≡ none → str_eq (q ^^ s) t ≡ false
str_eq-strip q s t h = elim (Bool-cases (str_eq (q ^^ s) t)) [
  | inl same ↦ absurd (cc (h, strip-append q s, (str_eq_iff (q ^^ s) t).0 same))
  | inr other ↦ other
]

-- the texts differ at a character that both have
unfoldable pub apart : String → String → Bool
apart String.[] q = false
apart (String.◌∷◌ c p) String.[] = false
apart (String.◌∷◌ c p) (String.◌∷◌ d q) =
    let rest = apart p q in if code c == code d then rest else true

pub strip-apart : (p q s : String) → apart p q ≡ true → strip p (q ^^ s) ≡ none
unfolding strip apart
strip-apart String.[] q s h = cc
strip-apart (String.◌∷◌ c p) String.[] s h = cc
strip-apart (String.◌∷◌ c p) (String.◌∷◌ d q) s h =
    rw cons-append (ground (arith, strip-apart p q s))

match_number-digit : (s : String) → StartsDigit s → match_number s ≡ after_number (scan 0 s)
unfolding match_number
match_number-digit s (c, t, e, d) =
    ap match_number e ∙ first ∙ ap (λ r. after_number (scan 0 r)) (sym e)
  where
    first : match_number (String.◌∷◌ c t) ≡ after_number (scan 0 (String.◌∷◌ c t))
    first = rw d

match_number-show : (id : ℕ) (s : String) → match_number (show id ^^ s) ≡ after_number (scan id s)
match_number-show id s =
    match_number-digit (show id ^^ s) (StartsDigit-show id s) ∙ ap after_number (scan-show id s)

pub match_id-show :
    (prefix : String) (id : ℕ) (s : String)
    → match_id prefix (prefix ^^ show id ^^ s) ≡ after_number (scan id s)
unfolding match_id match_rest
match_id-show prefix id s = rw strip-append (match_number-show id s)
