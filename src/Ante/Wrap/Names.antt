-- ===== src/Ante/Wrap/Names.antt =====
-- jsonNameFromTag and sanitizeTypedef of eip712_cosmos.go. strings.Title is that of ASCII texts: a byte beyond
-- ASCII counts as a letter without case.
pub mod Laws
pub mod References
use flux_sdk_go.Common.{
  ℕ, ◌-◌, Bool, true, false, not, ◌&&◌, ◌||◌, List, [], ◌∷◌, ◌++◌, Bytes, codes, bytes_eq, leb,
  ◌==◌, is_digit, before_byte, if◌then◌else◌,
}

-- `strings.Split(s, sep)` for a separator of one byte; `part` is what was read of the part.
unfoldable pub split_onto : ℕ → Bytes → Bytes → List Bytes
split_onto sep part [] = part ∷ []
split_onto sep part (c ∷ s) =
    let here = part ∷ split_onto sep [] s in
    let on = split_onto sep (part ++ (c ∷ [])) s in if c == sep then here else on

abbrev pub is_lower : ℕ → Bool
is_lower c = leb 97 c && leb c 122

-- The bytes that `strings.Title` takes for a part of a word.
abbrev pub is_in_word : ℕ → Bool
is_in_word c = is_lower c || (leb 65 c && leb c 90) || is_digit c || (c == 95) || leb 128 c

-- `strings.Title`; `start` says that a word begins here.
unfoldable pub title_from : Bool → Bytes → Bytes
title_from start [] = []
title_from start (c ∷ s) =
    (if start && is_lower c then c - 32 else c) ∷ title_from (not (is_in_word c)) s

unfoldable pub title_all : List Bytes → Bytes
title_all [] = []
title_all (s ∷ rest) = title_from true s ++ title_all rest

-- What a part of a path adds to the name of a type.
unfoldable pub write_part : Bytes → Bytes
write_part part =
    if bytes_eq part (codes "_") then codes "Type" else title_all (split_onto 95 [] part)

unfoldable pub write_parts : List Bytes → Bytes
write_parts [] = []
write_parts (part ∷ rest) = write_part part ++ write_parts rest

-- `sanitizeTypedef`
unfoldable pub sanitize_typedef : Bytes → Bytes
sanitize_typedef str = write_parts (split_onto 46 [] str)

-- `jsonNameFromTag`, of the json part of a tag.
unfoldable pub json_name_from_tag : Bytes → Bytes
json_name_from_tag tag = before_byte 44 tag
