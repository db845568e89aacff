-- ===== src/Prelude/Paths.antt =====
-- `std::path` on Unix: the components of a path, which is its bytes.
use Prim.Native.Nat.{ℕ}
use mathlib.Core.Bool.{Bool, true, false, ◌&&◌}
use mathlib.Core.Option.{Option, none, some}
use mathlib.Core.List.{List, [], ◌∷◌}
use agent_seat_proto.Prelude.Tests.{◌==◌, if◌then◌else◌}
use agent_seat_proto.Prelude.Lists.{is_empty}
use agent_seat_proto.Prelude.Text.{chars, same}
use agent_seat_proto.Prelude.Split.{split}

pub data Component : Type 0 where
  root_dir cur_dir parent_dir : Component
  normal : List ℕ → Component

-- An empty piece and a dot within the path are no components.
abbrev onto_components : List ℕ → List Component → List Component
onto_components piece rest =
    if is_empty piece
    then rest
    else if same piece (chars ".")
    then rest
    else if same piece (chars "..")
    then parent_dir ∷ rest
    else normal piece ∷ rest

unfoldable pub pieces : List (List ℕ) → List Component
unfolding same
pieces [] = []
pieces (piece ∷ rest) = onto_components piece (pieces rest)

abbrev relative : List (List ℕ) → List Component
unfolding pieces same
relative [] = []
relative (first ∷ rest) =
    if same first (chars ".") then cur_dir ∷ pieces rest else pieces (first ∷ rest)

-- `Path::components`
unfoldable pub components : List ℕ → List Component
unfolding pieces split
components [] = []
components (c ∷ rest) =
    if c == b'/' then root_dir ∷ pieces (split b'/' rest) else relative (split b'/' (c ∷ rest))

abbrev pub same_component : Component → Component → Bool
unfolding same
same_component root_dir root_dir = true
same_component cur_dir cur_dir = true
same_component parent_dir parent_dir = true
same_component (normal a) (normal b) = same a b
same_component _ _ = false

-- `Path::eq`, on components.
unfoldable pub same_components : List Component → List Component → Bool
same_components [] [] = true
same_components [] (b ∷ bs) = false
same_components (a ∷ others) [] = false
same_components (a ∷ others) (b ∷ bs) = same_component a b && same_components others bs

-- `Path::starts_with`, on components.
unfoldable pub starts_with : List Component → List Component → Bool
unfolding same
starts_with path [] = true
starts_with [] (b ∷ base) = false
starts_with (a ∷ path) (b ∷ base) = same_component a b && starts_with path base

-- `Path::file_name`, on components: the last one, if it is a name.
unfoldable pub file_name : List Component → Option (List ℕ)
file_name [] = none
file_name (normal name ∷ []) = some name
file_name (root_dir ∷ []) = none
file_name (cur_dir ∷ []) = none
file_name (parent_dir ∷ []) = none
file_name (c ∷ d ∷ rest) = file_name (d ∷ rest)

-- `Path::is_absolute`
abbrev pub is_absolute : List ℕ → Bool
is_absolute [] = false
is_absolute (c ∷ rest) = c == b'/'

abbrev pub is_plain : Component → Bool
is_plain root_dir = true
is_plain cur_dir = false
is_plain parent_dir = false
is_plain (normal name) = true
