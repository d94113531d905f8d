-- ===== src/Api/Bearer.antt =====
-- internal/api/middleware.go, extractBearerToken, with what it uses of Go's package `strings`. A header
-- is the text of its code points.
pub mod RoundTrip
use Prim.Native.Char.{Char, code}
use Prim.Native.String.{String}
use jobit.Prelude.{
  ℕ, ◌+◌, Bool, true, false, ◌&&◌, ◌||◌, Option, none, some, ◌==◌, leb, if◌then◌else◌,
}

-- unicode.IsSpace
unfoldable pub is_space : ℕ → Bool
is_space c =
    (leb 9 c && leb c 13)
    || c == 32
    || c == 133
    || c == 160
    || c == 5760
    || (leb 8192 c && leb c 8202)
    || c == 8232
    || c == 8233
    || c == 8239
    || c == 8287
    || c == 12288

unfoldable pub trim_left : String → String
trim_left String.[] = String.[]
trim_left (String.◌∷◌ c s) =
    let rest = trim_left s in if is_space (code c) then rest else String.◌∷◌ c s

abbrev pub is_empty_text : String → Bool
is_empty_text String.[] = true
is_empty_text (String.◌∷◌ _ _) = false

unfoldable pub trim_right : String → String
trim_right String.[] = String.[]
trim_right (String.◌∷◌ c s) =
    let rest = trim_right s in
    if is_empty_text rest && is_space (code c) then String.[] else String.◌∷◌ c rest

-- strings.TrimSpace
unfoldable pub trim_space : String → String
trim_space s = trim_right (trim_left s)

-- strings.SplitN(hdr, " ", 2), where that has two parts.
abbrev pub grow : Char → Option (String × String) → Option (String × String)
grow c none = none
grow c (some (a, b)) = some (String.◌∷◌ c a, b)

unfoldable pub split_space : String → Option (String × String)
split_space String.[] = none
split_space (String.◌∷◌ c s) =
    let rest = grow c (split_space s) in if code c == 32 then some (String.[], s) else rest

-- strings.EqualFold with a word whose letters have no third case.
abbrev pub fold : ℕ → ℕ
fold c = if leb 65 c && leb c 90 then c + 32 else c

unfoldable pub equal_fold : String → String → Bool
equal_fold String.[] String.[] = true
equal_fold String.[] (String.◌∷◌ _ _) = false
equal_fold (String.◌∷◌ _ _) String.[] = false
equal_fold (String.◌∷◌ c s) (String.◌∷◌ d t) = fold (code c) == fold (code d) && equal_fold s t

abbrev pub token_of : Option (String × String) → String
token_of none = ""
token_of (some (scheme, token)) = if equal_fold scheme "bearer" then trim_space token else ""

-- An absent header is the empty text, for which the first test of the source gives what the others do.
unfoldable pub extract_bearer_token : String → String
extract_bearer_token String.[] = ""
extract_bearer_token (String.◌∷◌ c s) = token_of (split_space (String.◌∷◌ c s))
