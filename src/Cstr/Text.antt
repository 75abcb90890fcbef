-- ===== src/Cstr/Text.antt =====
-- cppext/cstr.cpp: the ends of a C string, and what it says as a truth value.
--
-- The characters are bytes; a place behind the null at the end has none.
use safely.Prelude.{
  ℕ, zero, suc, Bool, true, false, not, ◌&&◌, ◌||◌, List, [], ◌∷◌, ◌==◌, if◌then◌else◌, length,
  get_or, drop, leb, Option, none, some, sub_u32, int_max,
}
use safely.Cstr.{same}
use safely.Index.{Index, bad_index, is_valid}

unfoldable pub at : Index → List ℕ → ℕ
at index text = if not (length text == 0) && is_valid index then get_or text index 0 else 0

-- `endsWith` of a character. It looks at the first character of the object that lies as many objects
-- behind as there are characters but one; `none` where that is another object.
unfoldable ends_with_char : ℕ → List ℕ → Option Bool
ends_with_char isit text =
    if length text == 0
    then some (isit == 0)
    else if length text == 1
    then some (get_or text 0 0 == isit)
    else none

-- `endsWith` of a text, whose offset is an `int`
unfoldable pub ends_with : List ℕ → List ℕ → Bool
unfolding same
ends_with ext text =
    if length text == 0 && length ext == 0
    then true
    else if leb int_max (sub_u32 (length text) (length ext))
    then false
    else if sub_u32 (length text) (length ext) == 0
    then same text ext
    else same (drop (sub_u32 (length text) (length ext)) text) ext

-- `startsWith` of a text, and of a character
unfoldable pub starts_with : List ℕ → List ℕ → Bool
starts_with [] text = true
starts_with (c ∷ other) [] = false
starts_with (c ∷ other) (m ∷ text) = if not (c == m) then false else starts_with other text

-- `rindex`, of a character that is not null, with the last place so far
rindex_from : ℕ → List ℕ → ℕ → Index → Index
rindex_from i [] ch found = found
rindex_from i (c ∷ cs) ch found =
    let later = rindex_from (suc i) cs ch in if c == ch then later i else later found

unfoldable rindex : List ℕ → ℕ → Index
unfolding rindex_from
rindex text ch = rindex_from 0 text ch bad_index

-- `cvt<bool>`
unfoldable cvt_bool : Bool → List ℕ → Bool
unfolding same
cvt_bool on_null text =
    if length text == 1 && (get_or text 0 0 == b'0' || get_or text 0 0 == b'1')
    then get_or text 0 0 == b'1'
    else if same text (b't' ∷ b'r' ∷ b'u' ∷ b'e' ∷ [])
    then true
    else if same text (b'f' ∷ b'a' ∷ b'l' ∷ b's' ∷ b'e' ∷ [])
    then false
    else on_null

-- whether there is a point before a place: the inner loop of `trailingZeroes`
unfoldable pub has_point : ℕ → List ℕ → Bool
has_point zero text = false
has_point (suc dp) text = if get_or text dp 0 == b'.' then true else has_point dp text

-- the outer loop, from a place down
unfoldable pub zeroes_from : ℕ → List ℕ → Index
unfolding has_point
zeroes_from zero text = bad_index
zeroes_from (suc p) text =
    let lower = zeroes_from p text in
    if not (get_or text p 0 == b'0')
    then (if get_or text p 0 == b'.'
        then p
        else if suc p == length text
        then bad_index
        else if has_point (suc p) text
        then suc p
        else bad_index)
    else lower

unfoldable pub trailing_zeroes : List ℕ → Index
unfolding zeroes_from
trailing_zeroes text = if length text == 1 then bad_index else zeroes_from (length text) text
