-- ===== src/Status/Health.antt =====
-- The health that is shown (frontend/src/components/ConnectionStatus.tsx).
use inboxone.Common.{
  ◌≡◌, ◌↔◌, refl, ap, sym, ◌∙◌, String, Bool, true, false, not, none, some, str_eq, str_eq_iff,
  if◌then◌else◌, Bool-cases, inl, inr, ◌≢◌, if_true, if_false,
}
use inboxone.Status.{Connections, health, health_text, is_text}

-- the part of `health` after its first two tests
shown : Bool → String → String
shown connected text = if not connected then "yellow" else text

health_some :
    (connected : Bool) (d : Connections)
    → health connected (some d) ≡ (
        if str_eq d.health "neutral"
        then "neutral"
        else if str_eq d.health "red"
        then "red"
        else shown connected d.health)
unfolding health health_text is_text shown
health_some connected d = refl

shown-eq :
    (connected : Bool) (text word : String)
    → word ≢ "yellow"
    → shown connected text ≡ word
    → (connected ≡ true) × (text ≡ word)
unfolding shown
shown-eq true text word h e = (refl, e)
shown-eq false text word h e = absurd (h (sym e))

-- Which words of three tests come out of them.
chosen :
    (connected : Bool) (text word : String)
    → (word ≢ "yellow")
    → (if str_eq text "neutral"
        then "neutral"
        else if str_eq text "red"
        then "red"
        else shown connected text)
      ≡ word
    → text ≡ word
chosen connected text word h e = elim (Bool-cases (str_eq text "neutral")) [
  | inl n ↦ (str_eq_iff text "neutral").0 n ∙ (sym (if_true _ _ _ n) ∙ e)
  | inr n ↦ elim (Bool-cases (str_eq text "red")) [
    | inl r ↦ (str_eq_iff text "red").0 r ∙ (sym (if_true _ _ _ r) ∙ sym (if_false _ _ _ n) ∙ e)
    | inr r ↦
        (shown-eq connected text word h (sym (if_false _ _ _ r) ∙ sym (if_false _ _ _ n) ∙ e)).1
  ]
]

differ : (s t : String) → str_eq s t ≡ false → s ≢ t
differ s t h e = cc (h, (str_eq_iff s t).1 e)

connected_of :
    (connected : Bool) (d : Connections)
    → d.health ≡ "green"
    → health connected (some d) ≡ "green"
    → connected ≡ true
unfolding shown
connected_of true d h e = refl
connected_of false d h e = absurd (
    differ "yellow" "green" refl (
      sym (
        health_some false d
        ∙ ap
            (λ t.
              if str_eq t "neutral"
              then "neutral"
              else if str_eq t "red"
              then "red"
              else shown false t)
            h)
      ∙ e))

health_none : (connected : Bool) → health connected none ≡ "yellow"
unfolding health health_text is_text
health_none true = refl
health_none false = refl

-- What is shown once the connections have been loaded: green exactly if the server says so and its events
-- arrive; red and neutral exactly if the server says so, whether they arrive or not. Before that it is yellow.
pub health_iff :
    (connected : Bool) (d : Connections)
    → ((health connected (some d) ≡ "green") ↔ ((connected ≡ true) × (d.health ≡ "green")))
      × ((health connected (some d) ≡ "red") ↔ (d.health ≡ "red"))
      × ((health connected (some d) ≡ "neutral") ↔ (d.health ≡ "neutral"))
      × (health connected none ≡ "yellow")
unfolding shown
health_iff connected d = (
  (
    λ e.
        let h = of_shown "green" (differ "green" "yellow" refl) e in
        (connected_of connected d h e, h),
    λ h. health_some connected d ∙ rw (h.0, h.1),
  ),
  (of_shown "red" (differ "red" "yellow" refl), λ h. health_some connected d ∙ rw h),
  (of_shown "neutral" (differ "neutral" "yellow" refl), λ h. health_some connected d ∙ rw h),
  health_none connected,
)
  where
    of_shown :
        (word : String) → word ≢ "yellow" → health connected (some d) ≡ word → d.health ≡ word
    of_shown word h e = chosen connected d.health word h (sym (health_some connected d) ∙ e)
