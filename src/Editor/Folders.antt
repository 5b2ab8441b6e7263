-- ===== src/Editor/Folders.antt =====
-- The folder choices (`toggle` of frontend/src/pages/SettingsAccountsPage.tsx).
use inboxone.Common.{
  ◌≡◌, refl, ap, inl, inr, String, Bool, true, false, Option, none, some, List, [], ◌∷◌, map,
  str_eq, str_eq_iff, if◌then◌else◌, Bool-cases,
}
use inboxone.Types.{Folder}
use inboxone.Editor.{FolderChoice, toggle}

-- the choice for a path, if the folder is there
abbrev pub choice : String → List FolderChoice → Option Bool
choice path [] = none
choice path (c ∷ cs) = if str_eq c.imap_path path then some c.is_inbox else choice path cs

abbrev pub current : String → List Folder → Option Bool
current path [] = none
current path (f ∷ fs) = if str_eq f.imap_path path then some f.is_inbox else current path fs

abbrev pub chosen : Bool → Option Bool → Option Bool
chosen enabled none = none
chosen enabled (some _) = some enabled

none_same : (b : Bool) → ◌≡◌ {A = Option Bool} none (if b then none else none)
none_same true = refl
none_same false = refl

some_if :
    (b x y : Bool)
    → ◌≡◌ {A = Option Bool} (some (if b then x else y)) (if b then some x else some y)
some_if true x y = refl
some_if false x y = refl

-- The request of a checkbox names every folder, in their order, and changes the one whose box it is: its
-- choice is that of the box, if there is such a folder, and every other folder's is as it was.
pub choice-toggle :
    (path other : String) (enabled : Bool) (fs : List Folder)
    → (map (λ (c : FolderChoice). c.imap_path) (toggle path enabled fs)
        ≡ map (λ (f : Folder). f.imap_path) fs)
      × (choice other (toggle path enabled fs)
          ≡ (if str_eq other path then chosen enabled (current other fs) else current other fs))
unfolding toggle
choice-toggle path other enabled [] = (refl, none_same (str_eq other path))
choice-toggle path other enabled (f ∷ fs) =
    let (paths, rest) = choice-toggle path other enabled fs in
    (
      ap (λ ps. f.imap_path ∷ ps) paths,
      elim (Bool-cases (str_eq f.imap_path other)) [
        | inl here ↦
            let e = (str_eq_iff f.imap_path other).0 here in
            let same : str_eq f.imap_path path ≡ str_eq other path = ap (λ p. str_eq p path) e in
            rw (here, same) (some_if (str_eq other path) enabled f.is_inbox)
        | inr away ↦ rw away rest
      ],
    )
