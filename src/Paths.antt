-- ===== src/Paths.antt =====
-- What the program uses of Go's packages strings and path/filepath (on Unix). A text is a list of
-- code points, as a string of valid UTF-8 is.
pub mod Clean
use netns_mcast_relay.Base.{
  ℕ, Bool, true, false, not, ◌&&◌, ◌||◌, Option, none, some, List, [], ◌∷◌, ◌++◌, Text, ◌==◌,
  nat_eq, text_eq, leb, if◌then◌else◌, codes,
}
use mathlib.Core.List.{reverse}

-- unicode.IsSpace
abbrev pub is_space : ℕ → Bool
is_space c =
    (leb 9 c && leb c 13)
    || (c == 0x20
        || (c == 0x85
            || (c == 0xa0
                || (c == 0x1680
                    || ((leb 0x2000 c && leb c 0x200a)
                        || (c == 0x2028
                            || (c == 0x2029 || (c == 0x202f || (c == 0x205f || c == 0x3000)))))))))

unfoldable pub trim_left : Text → Text
trim_left [] = []
trim_left (c ∷ s) = if is_space c then trim_left s else c ∷ s

-- strings.TrimSpace
unfoldable pub trim_space : Text → Text
unfolding trim_left
trim_space s = reverse (trim_left (reverse (trim_left s)))

-- strings.HasPrefix and strings.Contains
unfoldable pub has_prefix : Text → Text → Bool
has_prefix s [] = true
has_prefix [] (p ∷ ps) = false
has_prefix (c ∷ s) (p ∷ ps) = c == p && has_prefix s ps

unfoldable pub contains : Text → Text → Bool
unfolding has_prefix
contains [] t = has_prefix [] t
contains (c ∷ s) t = has_prefix (c ∷ s) t || contains s t

-- The parts between slashes; there is always one.
abbrev pub add_to_first : ℕ → List Text → List Text
add_to_first c [] = (c ∷ []) ∷ []
add_to_first c (part ∷ parts) = (c ∷ part) ∷ parts

unfoldable pub split_slash : Text → List Text
split_slash [] = [] ∷ []
split_slash (c ∷ s) = if c == b'/' then [] ∷ split_slash s else add_to_first c (split_slash s)

-- filepath.IsAbs
abbrev pub is_abs : Text → Bool
is_abs [] = false
is_abs (c ∷ s) = c == b'/'

abbrev pub dot : Text
dot = codes "."

abbrev pub dot_dot : Text
dot_dot = codes ".."

-- `..` takes the last part away, stays at the front of a relative path, and is dropped at the root.
-- The stack has its top at the head.
abbrev pub go_up : Bool → List Text → List Text
go_up rooted [] = if rooted then [] else dot_dot ∷ []
go_up rooted (top ∷ stack) = if top == dot_dot then dot_dot ∷ top ∷ stack else stack

unfoldable pub clean_part : Bool → List Text → Text → List Text
clean_part rooted stack part =
    if part == [] || part == dot
    then stack
    else if part == dot_dot
    then go_up rooted stack
    else part ∷ stack

unfoldable pub clean_parts : Bool → List Text → List Text → List Text
unfolding clean_part
clean_parts rooted stack [] = reverse stack
clean_parts rooted stack (part ∷ parts) = clean_parts rooted (clean_part rooted stack part) parts

unfoldable pub join : List Text → Text
join [] = []
join (part ∷ []) = part
join (part ∷ next ∷ parts) = part ++ b'/' ∷ join (next ∷ parts)

abbrev pub rooted_text : Bool → List Text → Text
rooted_text true parts = b'/' ∷ join parts
rooted_text false [] = dot
rooted_text false (part ∷ parts) = join (part ∷ parts)

-- filepath.Clean: the shortest path that says the same.
unfoldable pub clean : Text → Text
unfolding clean_parts split_slash join
clean path = rooted_text (is_abs path) (clean_parts (is_abs path) [] (split_slash path))
