-- ===== src/Deletion/Frame.antt =====
-- The parts of the inbox page's state under single changes: the map of timers, the requests under way,
-- and the offers of the toasts.
use inboxone.Common.{
  ℕ, ◌≡◌, refl, ◌∙◌, ◌≢◌, inl, inr, Bool, false, none, some, List, [], ◌∷◌, ◌++◌, arith, contains,
  filter, All, All-filter, All-concat, Bool-cases,
}
use inboxone.Timers.{Timer, find_timer}
use inboxone.Toasts.{Toast}
use inboxone.Deletion.{Callback, UndoAction, get, remove, land}
use inboxone.Deletion.Invariant.{Offer, DoDiffer, AreDistinct, AreSingle}

pub get-remove_ne : (id k : ℕ) (m : List (ℕ × ℕ)) → id ≢ k → get id (remove k m) ≡ get id m
get-remove_ne id k [] h = refl
get-remove_ne id k ((j, v) ∷ m) h = ground (arith, get-remove_ne id k m h)

pub get-remove_self : (id : ℕ) (m : List (ℕ × ℕ)) → get id (remove id m) ≡ none
get-remove_self id [] = refl
get-remove_self id ((j, v) ∷ m) = ground (arith, get-remove_self id m)

pub contains-land_ne :
    (a id : ℕ) (ids : List ℕ) → a ≢ id → contains a (land id ids) ≡ contains a ids
contains-land_ne a id [] h = refl
contains-land_ne a id (k ∷ ids) h = ground (arith, contains-land_ne a id ids h)

pub contains-land_self : (id : ℕ) (ids : List ℕ) → AreSingle ids → contains id (land id ids) ≡ false
contains-land_self id [] h = refl
contains-land_self id (k ∷ ids) h = ground (arith, contains-land_self id ids h.1)

contains-land-false :
    (a id : ℕ) (ids : List ℕ) → contains a ids ≡ false → contains a (land id ids) ≡ false
contains-land-false a id [] h = refl
contains-land-false a id (k ∷ ids) h = ground (arith, contains-land-false a id ids)

pub land-AreSingle : (id : ℕ) (ids : List ℕ) → AreSingle ids → AreSingle (land id ids)
land-AreSingle id [] h = tt
land-AreSingle id (k ∷ ids) h =
    ground (arith, land-AreSingle id ids h.1, contains-land-false k id ids h.0)

pub AreDistinct-filter :
    (p : Toast UndoAction → Bool) (ts : List (Toast UndoAction))
    → AreDistinct ts
    → AreDistinct (filter p ts)
AreDistinct-filter p [] d = tt
AreDistinct-filter p (t ∷ ts) d = elim (Bool-cases (p t)) [
  | inl kept ↦ rw kept (All-filter (DoDiffer t) p ts d.0, AreDistinct-filter p ts d.1)
  | inr gone ↦ rw gone (AreDistinct-filter p ts d.1)
]

-- a toast at the end that offers what no other does
pub AreDistinct-concat :
    (ts : List (Toast UndoAction)) (t : Toast UndoAction)
    → AreDistinct ts
    → All (λ u. DoDiffer u t) ts
    → AreDistinct (ts ++ t ∷ [])
AreDistinct-concat [] t d h = (tt, tt)
AreDistinct-concat (u ∷ ts) t d h =
    (All-concat (DoDiffer u) ts t d.0 h.0, AreDistinct-concat ts t d.1 h.1)

-- An offer stays while its timers and its entry of the map do.
pub Offer-keep :
    (m m' : List (ℕ × ℕ)) (ts ts' : List (Timer Callback)) (toast_id id : ℕ)
    → (o : Offer m ts toast_id id) → get id m' ≡ get id m
    → find_timer o.handle ts' ≡ find_timer o.handle ts
    → find_timer o.own_handle ts' ≡ find_timer o.own_handle ts
    → Offer m' ts' toast_id id
Offer-keep m m' ts ts' toast_id id o same kept own_kept = record {
  handle = o.handle;
  timer = o.timer;
  own_handle = o.own_handle;
  own_timer = o.own_timer;
  mapped = same ∙ o.mapped;
  set = kept ∙ o.set;
  commits = o.commits;
  own_set = own_kept ∙ o.own_set;
  expires = o.expires;
  order = o.order;
}

-- two timers that run different things have different handles
pub handles_differ :
    (ts : List (Timer Callback)) (h k : ℕ) (t u : Timer Callback)
    → find_timer h ts ≡ some t
    → find_timer k ts ≡ some u
    → t.callback ≢ u.callback
    → h ≢ k
handles_differ ts h k t u e f d same = let g : find_timer k ts ≡ some t = rw (← same) e in d (cc)
