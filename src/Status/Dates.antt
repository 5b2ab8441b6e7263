-- ===== src/Status/Dates.antt =====
-- The timestamps that are read (`date` of frontend/src/components/ConnectionStatus.tsx).
use inboxone.Common.{
  ◌≡◌, ◌↔◌, refl, sym, ap, ◌∙◌, arith, String, Bool, true, ◌^^◌, if_true, Bool-cases, inl, inr,
}
use text.Mathlib.TextLemmas.{cons-append, nil-append}
use inboxone.Status.{offset_here, has_offset, with_offset}

has_offset-append : (s t : String) → has_offset t ≡ true → has_offset (s ^^ t) ≡ true
unfolding has_offset
has_offset-append String.[] t h = ap has_offset (nil-append t) ∙ h
has_offset-append (String.◌∷◌ c s) t h =
    let rest = has_offset-append s t h in ap has_offset (cons-append c s t) ∙ ground arith

zulu : has_offset "Z" ≡ true
unfolding has_offset
zulu = refl

-- a text that ends in what the pattern wants
abbrev pub EndsIn : (String → Bool) → String → Type 0
EndsIn wants v = (before : String) × (end : String) × (v ≡ before ^^ end) × (wants end ≡ true)

nonempty : (t : String) → offset_here t ≡ true → has_offset t ≡ true
unfolding has_offset
nonempty String.[] h = h
nonempty (String.◌∷◌ c s) h = ground arith

has_offset_sound : (v : String) → has_offset v ≡ true → EndsIn offset_here v
unfolding has_offset
has_offset_sound String.[] h = cc
has_offset_sound (String.◌∷◌ c s) h = elim (Bool-cases (offset_here (String.◌∷◌ c s))) [
  | inl here ↦ ("", String.◌∷◌ c s, sym (nil-append _), here)
  | inr later ↦
      let (before, end, e, good) = has_offset_sound s (ground arith) in
      (String.◌∷◌ c before, end, ap (String.◌∷◌ c) e ∙ sym (cons-append c before end), good)
]

has_offset-with_offset : (v : String) → has_offset (with_offset v) ≡ true
unfolding with_offset
has_offset-with_offset v = elim (Bool-cases (has_offset v)) [
  | inl has ↦ rw has has
  | inr none_ ↦ rw none_ (has_offset-append v "Z" zulu)
]

-- The timestamp that is read always has an offset at its end; one that has it already is read as it is, so that to
-- do it twice is to do it once; and to have one is to end in a `Z` or in a sign, two digits, a colon and two
-- digits.
pub with_offset_lem :
    (v : String)
    → (has_offset (with_offset v) ≡ true)
      × (with_offset (with_offset v) ≡ with_offset v)
      × ((has_offset v ≡ true) ↔ EndsIn offset_here v)
unfolding with_offset
with_offset_lem v = (
  has_offset-with_offset v,
  if_true _ _ _ (has_offset-with_offset v),
  (has_offset_sound v, λ h. ap has_offset h.2 ∙ has_offset-append h.0 h.1 (nonempty h.1 h.3)),
)
