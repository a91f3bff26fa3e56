-- ===== src/Util/Paths.antt =====
-- repair/Util.cpp: `relativeTo`, on the elements of paths.
use f1x.Prelude.{◌≡◌, List, [], ◌∷◌, reverse, false, String, str_eq, if◌then◌else◌}

-- An element `..` for each that is left of the path to start from, in front of others.
unfoldable pub up_from : List String → List String → List String
up_from [] to = to
up_from (_ ∷ from) to = ".." ∷ up_from from to

unfoldable pub relative_to : List String → List String → List String
relative_to [] to = to
relative_to (a ∷ from) [] = up_from (a ∷ from) []
relative_to (a ∷ from) (b ∷ to) =
    let rest = relative_to from to in if str_eq b a then rest else up_from (a ∷ from) (b ∷ to)

-- The way along a path, from a directory whose elements are given from the last one on.
abbrev walk : List String → List String → List String
walk here [] = here
walk [] (e ∷ es) = let down = walk (e ∷ []) es in if str_eq e ".." then walk [] es else down
walk (d ∷ ds) (e ∷ es) =
    let up = walk ds es in let down = walk (e ∷ d ∷ ds) es in if str_eq e ".." then up else down

-- The path that a relative path stands for in a directory
abbrev pub resolve : List String → List String → List String
resolve from path = reverse (walk (reverse from) path)

abbrev pub IsName : String → Type 0
IsName e = str_eq e ".." ≡ false
