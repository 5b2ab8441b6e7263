-- ===== src/Compose/Addresses.antt =====
-- The recipients as they are typed (`parseAddrs` of frontend/src/components/ComposeModal.tsx).
use Prim.Native.Char.{Char, code}
use text.Mathlib.TextLemmas.{cons-append, nil-append}
use inboxone.Common.{
  ℕ, ◌≡◌, refl, ap, ◌∙◌, inl, inr, String, true, List, [], ◌∷◌, map, ◌==◌, Bool-cases, All, filter,
  filled, join, ◌^^◌,
}
use inboxone.Common.Split.{split, split_one, split_cons, IsFree}
use inboxone.Common.Trim.{is_space, trim_start, trim}
use inboxone.Compose.{parse_addrs}

-- an address that can stand in the field: it is not empty and has no comma and no space round it
pub record IsAddress (a : String) : Type 0 where
  pub stands : filled a ≡ true
  pub free : IsFree b',' a
  pub tight : trim a ≡ a

abbrev comma : Char
comma = ","

abbrev space : Char
space = " "

split_nonempty : (sep : ℕ) (s : String) → (w : String) × (ws : List String) × (split sep s ≡ w ∷ ws)
unfolding split
split_nonempty sep String.[] = ("", [], refl)
split_nonempty sep (String.◌∷◌ c s) =
    let (w, ws, e) = split_nonempty sep s in
    elim (Bool-cases (code c == sep)) [
      | inl same ↦ ("", split sep s, rw same)
      | inr other ↦ (String.◌∷◌ c w, ws, rw (other, e))
    ]

trim-space : (s : String) → trim (String.◌∷◌ space s) ≡ trim s
unfolding trim trim_start is_space
trim-space s = refl

map-trim-split : (s : String) → map trim (split b',' (String.◌∷◌ space s)) ≡ map trim (split b',' s)
unfolding split
map-trim-split s =
    let (w, ws, e) = split_nonempty b',' s in rw e (ap (λ t. t ∷ map trim ws) (trim-space w))

split-join :
    (a b : String) (bs : List String)
    → IsFree b',' a
    → split b',' (join ", " (a ∷ b ∷ bs)) ≡ a ∷ split b',' (String.◌∷◌ space (join ", " (b ∷ bs)))
split-join a b bs free =
    let glue : ", " ^^ join ", " (b ∷ bs)
        ≡ String.◌∷◌ comma (String.◌∷◌ space (join ", " (b ∷ bs))) =
      cons-append comma " " _
      ∙ ap (String.◌∷◌ comma) (cons-append space "" _ ∙ ap (String.◌∷◌ space) (nil-append _)) in
    ap (λ t. split b',' (a ^^ t)) glue ∙ split_cons b',' a comma _ refl free

map-trim-join :
    (a : String) (bs : List String)
    → All IsAddress (a ∷ bs)
    → map trim (split b',' (join ", " (a ∷ bs))) ≡ a ∷ bs
map-trim-join a [] h = ap (map trim) (split_one b',' a h.0.free) ∙ ap (λ t. t ∷ []) h.0.tight
map-trim-join a (b ∷ bs) h =
    ap (map trim) (split-join a b bs h.0.free)
    ∙ rw (h.0.tight, map-trim-split, map-trim-join b bs h.1)

filter-filled : (xs : List String) → All IsAddress xs → filter filled xs ≡ xs
filter-filled [] h = refl
filter-filled (x ∷ xs) h = rw (h.0.stands, filter-filled xs h.1)

-- Addresses without a comma in them that are put in the field, as the dialog does when it opens, are read
-- back as they were.
pub parse_addrs-join : (xs : List String) → All IsAddress xs → parse_addrs (join ", " xs) ≡ xs
unfolding parse_addrs
parse_addrs-join [] h = unfold split trim in refl
parse_addrs-join (a ∷ bs) h = ap (filter filled) (map-trim-join a bs h) ∙ filter-filled (a ∷ bs) h

filled-filter : (xs : List String) → All (λ a. filled a ≡ true) (filter filled xs)
filled-filter [] = tt
filled-filter (x ∷ xs) = elim (Bool-cases (filled x)) [
  | inl some_text ↦ rw some_text (some_text, filled-filter xs)
  | inr empty ↦ rw empty (filled-filter xs)
]

-- no recipient is empty
pub filled-parse_addrs : (raw : String) → All (λ a. filled a ≡ true) (parse_addrs raw)
unfolding parse_addrs
filled-parse_addrs raw = filled-filter (map trim (split b',' raw))
