-- ===== src/Cstr.antt =====
-- cppext/cstr.cpp and char.cpp: searches in a C string, here the list of its bytes without the null at
-- the end; a null pointer acts as the empty string does.
pub mod Text
pub mod Zeroes
pub mod Ends
use safely.Prelude.{ℕ, zero, suc, ◌+◌, ◌&&◌, Bool, true, false, List, [], ◌∷◌, ◌==◌, if◌then◌else◌}
use safely.Index.{Index, bad_index}

index_from : ℕ → List ℕ → ℕ → Index
index_from i [] ch = bad_index
index_from i (c ∷ cs) ch = if c == ch then i else index_from (i + 1) cs ch

-- `Cstr::index`, of a character that is not null
unfoldable pub index : List ℕ → ℕ → Index
unfolding index_from
index text ch = index_from 0 text ch

present_within : ℕ → List ℕ → ℕ → Bool
present_within limit [] flag = false
present_within zero (probe ∷ flags) flag = false
present_within (suc limit) (probe ∷ flags) flag =
    if flag == probe then true else present_within limit flags flag

-- `isPresent`, which looks at 26 characters at most; `Char::in` is a call of it
unfoldable pub is_present : List ℕ → ℕ → Bool
unfolding present_within
is_present flags flag = present_within 26 flags flag

-- `same` of cppext/textkey.cpp, which `is` calls
unfoldable pub same : List ℕ → List ℕ → Bool
same [] [] = true
same [] (d ∷ ds) = false
same (c ∷ cs) [] = false
same (c ∷ cs) (d ∷ ds) = c == d && same cs ds
