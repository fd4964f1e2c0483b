-- ===== src/Text.antt =====
-- carbonc/common.cc and carbonc/fs.cc: the functions on strings and on paths, as on POSIX systems.
pub mod Find
pub mod Split
pub mod Paths
use carbonlang.Prelude.{
  ℕ, zero, suc, ◌+◌, ◌-◌, Bool, true, false, not, ◌&&◌, ◌||◌, Option, some, none, List, [], ◌∷◌,
  ◌++◌, Bytes, length, get_or, take, drop, ltb, ◌==◌, if◌then◌else◌,
}

abbrev pub slash : ℕ
slash = 47

abbrev pub dot : ℕ
dot = 46

-- `find_last_of` of a string, with a character; `none` for `npos`.
unfoldable pub find_last_of : ℕ → Bytes → Option ℕ
find_last_of c [] = none
find_last_of c (x ∷ xs) = elim (find_last_of c xs) [
  | some n ↦ some (suc n)
  | none ↦ if x == c then some 0 else none
]

-- `getline` up to the end: an empty rest is no token.
unfoldable pub split_from : ℕ → Bytes → Bytes → List Bytes
split_from d [] [] = []
split_from d (t ∷ ts) [] = (t ∷ ts) ∷ []
split_from d token (x ∷ xs) =
    let next = split_from d [] xs in
    let longer = split_from d (token ++ x ∷ []) xs in if x == d then token ∷ next else longer

unfoldable pub split : Bytes → ℕ → List Bytes
unfolding split_from
split s delimiter = split_from delimiter [] s

abbrev pub ends_with : ℕ → Bytes → Bool
ends_with c [] = false
ends_with c (x ∷ []) = x == c
ends_with c (x ∷ y ∷ ys) = ends_with c (y ∷ ys)

unfoldable pub get_directory : Bytes → Bytes
unfolding find_last_of
get_directory filename =
    if ends_with slash filename
    then take (length filename - 1) filename
    else (elim (find_last_of slash filename) [ none ↦ [] | some pos ↦ take pos filename ])

-- Without a slash, `npos + 1` is 0.
unfoldable pub basename : Bytes → Bytes
unfolding find_last_of
basename path = elim (find_last_of slash path) [ none ↦ path | some pos ↦ drop (pos + 1) path ]

-- `while (prev && filename[prev - 1] == '.') --prev;`
unfoldable pub before_dots : Bytes → ℕ → ℕ
before_dots filename zero = zero
before_dots filename (suc n) =
    let rest = before_dots filename n in if get_or filename n 0 == dot then rest else suc n

abbrev after_slash : Bytes → Option ℕ → ℕ → Bool
after_slash filename none pos = true
after_slash filename (some last_slash) pos = not (ltb pos last_slash)

abbrev starts_name : Bytes → ℕ → Bool
starts_name filename zero = true
starts_name filename (suc n) = get_or filename n 0 == slash

-- Whether there is an extension, with the root and the extension.
unfoldable pub split_extension : Bytes → Bool × Bytes × Bytes
unfolding find_last_of before_dots
split_extension filename = elim (find_last_of dot filename) [
  | none ↦ (false, filename, [])
  | some pos ↦
      if after_slash filename (find_last_of slash filename) pos
        && not (starts_name filename (before_dots filename pos))
      then (true, take pos filename, drop pos filename)
      else (false, filename, [])
]

abbrev starts_with : ℕ → Bytes → Bool
starts_with c [] = false
starts_with c (x ∷ xs) = x == c

unfoldable pub join : Bytes → Bytes → Bytes
join [] filename = filename
join (p ∷ path) filename =
    if starts_with slash filename
    then filename
    else if ends_with slash (p ∷ path)
    then (p ∷ path) ++ filename
    else (p ∷ path) ++ slash ∷ filename
