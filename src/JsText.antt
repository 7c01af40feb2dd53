-- ===== src/JsText.antt =====
-- JavaScript strings that a source walks through, as lists of UTF-16 code units, with the library
-- methods that the sources call on them.
pub mod Laws
use clawsembly_kernel.Prelude.{
  ℕ, Bool, true, false, not, ◌&&◌, ◌||◌, Option, none, some, List, [], ◌∷◌, ◌++◌, if◌then◌else◌,
  ◌==◌, nat_eq, codes_eq, leb, all, length,
}

abbrev pub Text : Type 0
Text = List ℕ

-- `value.startsWith(c)`, `value.endsWith(c)` and `value.includes(c)` at one code unit.
unfoldable pub starts_with : ℕ → Text → Bool
starts_with c [] = false
starts_with c (x ∷ xs) = x == c

unfoldable pub ends_with : ℕ → Text → Bool
ends_with c [] = false
ends_with c (x ∷ []) = x == c
ends_with c (x ∷ y ∷ ys) = ends_with c (y ∷ ys)

unfoldable pub includes : ℕ → Text → Bool
includes c [] = false
includes c (x ∷ xs) = (x == c) || includes c xs

-- `value.slice(1)`
abbrev pub slice_1 : Text → Text
slice_1 [] = []
slice_1 (x ∷ xs) = xs

-- Puts a code unit in front of the first part.
abbrev pub extend_first : ℕ → List Text → List Text
extend_first c [] = (c ∷ []) ∷ []
extend_first c (part ∷ parts) = (c ∷ part) ∷ parts

-- `value.split(c)`, which is never empty.
unfoldable pub split : ℕ → Text → List Text
split c [] = [] ∷ []
split c (x ∷ xs) = let rest = split c xs in if x == c then [] ∷ rest else extend_first x rest

-- `parts.join(c)`
unfoldable pub join : ℕ → List Text → Text
join c [] = []
join c (part ∷ []) = part
join c (part ∷ next ∷ parts) = part ++ c ∷ join c (next ∷ parts)

-- The classes of the sources' regular expressions.
abbrev pub is_digit : ℕ → Bool
is_digit c = leb b'0' c && leb c b'9'

abbrev pub is_lower : ℕ → Bool
is_lower c = leb b'a' c && leb c b'z'

abbrev pub is_upper : ℕ → Bool
is_upper c = leb b'A' c && leb c b'Z'

-- `[0-9a-f]`
unfoldable pub is_hex : ℕ → Bool
is_hex c = is_digit c || leb b'a' c && leb c b'f'

-- `[A-Za-z0-9_-]`
unfoldable pub is_id_char : ℕ → Bool
is_id_char c = is_upper c || is_lower c || is_digit c || (c == b'_' || c == b'-')

-- `/^[A-Za-z0-9_-]{1,128}$/u`
unfoldable pub is_request_id : Text → Bool
is_request_id value = not (value == []) && (leb (length value) 128 && all is_id_char value)
