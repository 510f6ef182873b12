-- ===== src/Fs/Path.antt =====
-- `skipelem` of kernel/fs.c. A path is the list of its characters before the NUL.
pub mod Elements
pub mod Names
pub mod Split
use osn_mp2_part_a.Base.{
  ℕ, ◌+◌, ◌==◌, leb, if◌then◌else◌, Option, none, some, List, [], ◌∷◌, ◌++◌, length, take, drop,
}
use osn_mp2_part_a.Fs.{dirsiz}

-- `'/'`
abbrev pub slash : ℕ
slash = 47

-- The loops `while(*path == '/') path++`.
unfoldable pub skip_slashes : List ℕ → List ℕ
skip_slashes [] = []
skip_slashes (c ∷ cs) = let rest = skip_slashes cs in if c == slash then rest else c ∷ cs

-- The loop over the element, which ends at a slash or the NUL: what it passes, and what is left.
unfoldable pub split_elem : List ℕ → List ℕ × List ℕ
split_elem [] = ([], [])
split_elem (c ∷ cs) =
    let (elem, rest) = split_elem cs in if c == slash then ([], c ∷ cs) else (c ∷ elem, rest)

-- What the calls of `memmove` leave in the `dirsiz` bytes of `name`.
unfoldable pub put_elem : List ℕ → List ℕ → List ℕ
put_elem elem name =
    if leb dirsiz (length elem)
    then take dirsiz elem ++ drop dirsiz name
    else elem ++ (0 ∷ drop (length elem + 1) name)

-- The rest of the path and `name`, or `none` for the null pointer.
unfoldable pub skipelem : List ℕ → List ℕ → Option (List ℕ × List ℕ)
skipelem path name = elim (skip_slashes path) [
  | [] ↦ none
  | c ∷ cs ↦ let (elem, rest) = split_elem (c ∷ cs) in some (skip_slashes rest, put_elem elem name)
]
