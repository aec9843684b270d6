-- ===== src/Paths.antt =====
-- The text helpers of backend-go/internal/service/content.go, and what they use of the packages
-- strings and path/filepath on a system whose separator is '/': there filepath.ToSlash changes
-- nothing. strings.ToLower is modelled on the letters of ASCII.
pub mod Slugs
pub mod Trimming
use mathlib.Core.List.{reverse}
use easy_host_k8s.Prelude.{
  ℕ, zero, suc, ◌+◌, ◌-◌, Bool, true, false, not, ◌&&◌, ◌||◌, Option, none, some, List, [], ◌∷◌,
  ◌++◌, map, Bytes, codes, bytes_eq, has_prefix, contains, is_empty, any, length, ltb, leb, ◌==◌,
  if◌then◌else◌, ◌≡◌, refl,
}

-- [a-z0-9]
abbrev pub is_alnum : ℕ → Bool
is_alnum c = (leb b'a' c && leb c b'z') || (leb b'0' c && leb c b'9')

-- The rest of a slug, by whether the byte before it was a letter or a digit
unfoldable pub slug_rest : Bool → Bytes → Bool
slug_rest ends [] = ends
slug_rest ends (c ∷ s) = (is_alnum c || c == b'-') && slug_rest (is_alnum c) s

-- slugPattern.MatchString, for ^[a-z0-9]([a-z0-9-]*[a-z0-9])?$
unfoldable pub slug_matches : Bytes → Bool
unfolding slug_rest
slug_matches [] = false
slug_matches (c ∷ s) = is_alnum c && slug_rest true s

-- unicode.IsSpace, as the UTF-8 encodings of the characters that it holds of
abbrev pub white_space : List Bytes
white_space =
    (9 ∷ [])
    ∷ (10 ∷ [])
    ∷ (11 ∷ [])
    ∷ (12 ∷ [])
    ∷ (13 ∷ [])
    ∷ (32 ∷ [])
    ∷ (0xc2 ∷ 0x85 ∷ [])
    ∷ (0xc2 ∷ 0xa0 ∷ [])
    ∷ (0xe1 ∷ 0x9a ∷ 0x80 ∷ [])
    ∷ (0xe2 ∷ 0x80 ∷ 0x80 ∷ [])
    ∷ (0xe2 ∷ 0x80 ∷ 0x81 ∷ [])
    ∷ (0xe2 ∷ 0x80 ∷ 0x82 ∷ [])
    ∷ (0xe2 ∷ 0x80 ∷ 0x83 ∷ [])
    ∷ (0xe2 ∷ 0x80 ∷ 0x84 ∷ [])
    ∷ (0xe2 ∷ 0x80 ∷ 0x85 ∷ [])
    ∷ (0xe2 ∷ 0x80 ∷ 0x86 ∷ [])
    ∷ (0xe2 ∷ 0x80 ∷ 0x87 ∷ [])
    ∷ (0xe2 ∷ 0x80 ∷ 0x88 ∷ [])
    ∷ (0xe2 ∷ 0x80 ∷ 0x89 ∷ [])
    ∷ (0xe2 ∷ 0x80 ∷ 0x8a ∷ [])
    ∷ (0xe2 ∷ 0x80 ∷ 0xa8 ∷ [])
    ∷ (0xe2 ∷ 0x80 ∷ 0xa9 ∷ [])
    ∷ (0xe2 ∷ 0x80 ∷ 0xaf ∷ [])
    ∷ (0xe2 ∷ 0x81 ∷ 0x9f ∷ [])
    ∷ (0xe3 ∷ 0x80 ∷ 0x80 ∷ [])
    ∷ []

-- What is left of a text behind one of the given prefixes
unfoldable pub cut_prefix : Bytes → Bytes → Option Bytes
cut_prefix [] s = some s
cut_prefix (p ∷ pre) [] = none
cut_prefix (p ∷ pre) (c ∷ s) = let rest = cut_prefix pre s in if p == c then rest else none

unfoldable pub cut_any : List Bytes → Bytes → Option Bytes
unfolding cut_prefix
cut_any [] s = none
cut_any (pre ∷ more) s =
    let other = cut_any more s in elim (cut_prefix pre s) [ none ↦ other | some rest ↦ some rest ]

-- Each round removes a byte at least, so the length is fuel enough.
unfoldable pub trim_from : ℕ → List Bytes → Bytes → Bytes
unfolding cut_any
trim_from zero spaces s = s
trim_from (suc fuel) spaces s = elim (cut_any spaces s) [
  | none ↦ s
  | some rest ↦ trim_from fuel spaces rest
]

unfoldable pub trim_space : Bytes → Bytes
unfolding trim_from
trim_space s =
    let t = trim_from (length s) white_space s in
    reverse (trim_from (length t) (map reverse white_space) (reverse t))

abbrev pub lower : ℕ → ℕ
lower c = if leb b'A' c && leb c b'Z' then c + 32 else c

-- strings.ToLower
abbrev pub to_lower : Bytes → Bytes
to_lower s = map lower s

-- strings.HasSuffix(s, end)
abbrev pub has_suffix : Bytes → Bytes → Bool
has_suffix s end = has_prefix (reverse s) (reverse end)

unfoldable pub is_zip : Bytes → Bool
is_zip name = has_suffix (to_lower name) (codes ".zip")

abbrev pub cons_head : ℕ → List Bytes → List Bytes
cons_head c [] = (c ∷ []) ∷ []
cons_head c (part ∷ parts) = (c ∷ part) ∷ parts

-- strings.Split(s, sep), for a separator of one byte
unfoldable pub split : ℕ → Bytes → List Bytes
split sep [] = [] ∷ []
split sep (c ∷ s) = let rest = split sep s in if c == sep then [] ∷ rest else cons_head c rest

unfoldable pub is_hidden : Bytes → Bool
is_hidden path = any (λ part. has_prefix part (codes ".")) (split b'/' path)

-- ".." takes the last element back, unless that is a ".." itself.
unfoldable pub go_up : Bool → List Bytes → List Bytes
go_up true [] = []
go_up false [] = codes ".." ∷ []
go_up r (last ∷ before) = if bytes_eq last (codes "..") then codes ".." ∷ last ∷ before else before

-- The elements that filepath.Clean has kept, the last one first; `rooted` says that ".." stops at "/"
unfoldable pub clean_step : Bool → List Bytes → Bytes → List Bytes
unfolding go_up
clean_step rooted kept part =
    if is_empty part || bytes_eq part (codes ".")
    then kept
    else if bytes_eq part (codes "..")
    then go_up rooted kept
    else part ∷ kept

unfoldable pub clean_parts : Bool → List Bytes → List Bytes → List Bytes
unfolding clean_step
clean_parts rooted kept [] = reverse kept
clean_parts rooted kept (part ∷ parts) = clean_parts rooted (clean_step rooted kept part) parts

abbrev pub join_more : List Bytes → Bytes
join_more [] = []
join_more (part ∷ parts) = b'/' ∷ (part ++ join_more parts)

-- strings.Join(parts, "/")
abbrev pub join : List Bytes → Bytes
join [] = []
join (part ∷ parts) = part ++ join_more parts

abbrev pub or_dot : Bytes → Bytes
or_dot [] = codes "."
or_dot (c ∷ s) = c ∷ s

-- filepath.Clean
unfoldable pub clean : Bytes → Bytes
unfolding clean_parts split
clean path =
    if has_prefix path (codes "/")
    then b'/' ∷ join (clean_parts true [] (split b'/' path))
    else or_dot (join (clean_parts false [] (split b'/' path)))

unfoldable pub normalize_file_path : Bytes → Bytes
normalize_file_path path =
    let p = clean path in
    if has_prefix p (codes "..") || has_prefix p (codes "/") || has_prefix p (codes "\\")
    then []
    else p

-- filepath.Ext, with the last dot of the last element seen so far
abbrev pub ext_from : Bytes → Bytes → Bytes
ext_from found [] = found
ext_from found (c ∷ s) = ext_from (if c == b'/' then [] else if c == b'.' then c ∷ s else found) s

abbrev pub content_types : List (Bytes × Bytes)
content_types =
    (codes ".html", codes "text/html")
    ∷ (codes ".htm", codes "text/html")
    ∷ (codes ".css", codes "text/css")
    ∷ (codes ".js", codes "application/javascript")
    ∷ (codes ".json", codes "application/json")
    ∷ (codes ".png", codes "image/png")
    ∷ (codes ".jpg", codes "image/jpeg")
    ∷ (codes ".jpeg", codes "image/jpeg")
    ∷ (codes ".gif", codes "image/gif")
    ∷ (codes ".svg", codes "image/svg+xml")
    ∷ (codes ".ico", codes "image/x-icon")
    ∷ (codes ".woff", codes "font/woff")
    ∷ (codes ".woff2", codes "font/woff2")
    ∷ (codes ".ttf", codes "font/ttf")
    ∷ []

unfoldable pub type_of : Bytes → List (Bytes × Bytes) → Bytes
type_of ext [] = codes "application/octet-stream"
type_of ext ((key, content_type) ∷ types) =
    if bytes_eq ext key then content_type else type_of ext types

unfoldable pub detect_content_type : Bytes → Bytes
unfolding type_of
detect_content_type name = type_of (to_lower (ext_from [] name)) content_types
