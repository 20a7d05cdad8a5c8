-- ===== src/Ownership/Patterns.antt =====
-- internal/ownership/matcher.go: the patterns of CODEOWNERS. A pattern is the list of its bytes, a path
-- the list of its code points. The regular expression that the code writes is the list of its parts.
pub mod Literal
use telemetry_change_guard.Common.{
  ℕ, String, ◌+◌, ◌/◌, ◌%◌, codes, ltb, Bool, true, false, not, ◌&&◌, ◌||◌, List, [], ◌∷◌, ◌++◌,
  Result, ok, err, if◌then◌else◌, any, nat_beq, is_empty,
}

abbrev pub slash : ℕ
slash = 47

abbrev pub star : ℕ
star = 42

abbrev pub question : ℕ
question = 63

abbrev pub newline : ℕ
newline = 10

abbrev backslash : ℕ
backslash = 92

pub data PatternError : Type 0 where
  empty_pattern negated unsupported empty_segment too_many_stars no_path : PatternError

abbrev pub pattern_message : PatternError → String
pattern_message empty_pattern = "pattern is empty"
pattern_message negated = "negated patterns are not supported by CODEOWNERS"
pattern_message unsupported = "pattern uses an unsupported CODEOWNERS construct"
pattern_message empty_segment = "pattern contains an empty path segment"
pattern_message too_many_stars = "pattern contains more than two consecutive stars"
pattern_message no_path = "pattern does not identify a repository path"

-- The bytes of a character in UTF-8, and of a text.
abbrev code_utf8 : ℕ → List ℕ
code_utf8 c =
    if ltb c 128
    then c ∷ []
    else if ltb c 2048
    then (192 + c / 64) ∷ (128 + c % 64) ∷ []
    else if ltb c 65536
    then (224 + c / 4096) ∷ (128 + c / 64 % 64) ∷ (128 + c % 64) ∷ []
    else (240 + c / 262144) ∷ (128 + c / 4096 % 64) ∷ (128 + c / 64 % 64) ∷ (128 + c % 64) ∷ []

abbrev pub codes_utf8 : List ℕ → List ℕ
codes_utf8 [] = []
codes_utf8 (c ∷ cs) = code_utf8 c ++ codes_utf8 cs

unfoldable pub utf8 : String → List ℕ
utf8 s = codes_utf8 (codes s)

-- The parts `(.*/)?`, `.*`, `[^/]*`, `[^/]`, a quoted character and `(/.*)?`, between `^` and `$`.
pub data Part : Type 0 where
  optional_directories anything within one_within : Part
  exactly : ℕ → Part
  optional_below : Part

-- `strings.HasPrefix`
unfoldable pub starts_with : List ℕ → List ℕ → Bool
starts_with s [] = true
starts_with [] (p ∷ ps) = false
starts_with (c ∷ s) (p ∷ ps) = nat_beq c p && starts_with s ps

-- `strings.Contains`
unfoldable pub contains : List ℕ → List ℕ → Bool
contains [] part = is_empty part
contains (c ∷ s) part = starts_with (c ∷ s) part || contains s part

abbrev pub has_slash : List ℕ → Bool
has_slash s = any (λ c. nat_beq c slash) s

abbrev pub is_wildcard : ℕ → Bool
is_wildcard c = nat_beq c star || nat_beq c question

-- `strings.TrimPrefix(pattern, "/")`
unfoldable pub trim_first : List ℕ → List ℕ
trim_first [] = []
trim_first (c ∷ s) = if nat_beq c slash then s else c ∷ s

-- `strings.HasSuffix(pattern, "/")` and `strings.TrimSuffix(pattern, "/")`
unfoldable pub ends_in_slash : List ℕ → Bool
ends_in_slash [] = false
ends_in_slash (c ∷ []) = nat_beq c slash
ends_in_slash (c ∷ d ∷ s) = ends_in_slash (d ∷ s)

unfoldable pub trim_last : List ℕ → List ℕ
trim_last [] = []
trim_last (c ∷ []) = if nat_beq c slash then [] else c ∷ []
trim_last (c ∷ d ∷ s) = c ∷ trim_last (d ∷ s)

-- One turn of the loop that does not start at two stars.
unfoldable pub single : ℕ → Part
single c = if nat_beq c star then within else if nat_beq c question then one_within else exactly c

-- The loop over the pattern.
unfoldable pub parts : List ℕ → List Part
parts [] = []
parts (c ∷ []) = single c ∷ []
parts (c ∷ d ∷ []) =
    let rest = parts (d ∷ []) in
    if nat_beq c star && nat_beq d star then anything ∷ [] else single c ∷ rest
parts (c ∷ d ∷ e ∷ s) =
    let after_slash = parts s in
    let after_stars = parts (e ∷ s) in
    let after_one = parts (d ∷ e ∷ s) in
    if nat_beq c star && nat_beq d star
    then (if nat_beq e slash then optional_directories ∷ after_slash else anything ∷ after_stars)
    else single c ∷ after_one

unfoldable pub last_segment : List ℕ → List ℕ
last_segment [] = []
last_segment (c ∷ s) =
    let rest = last_segment s in
    if has_slash (c ∷ s) then (if nat_beq c slash && not (has_slash s) then s else rest) else c ∷ s

-- The expression of a pattern without its first and last slash.
unfoldable pub expression : Bool → Bool → List ℕ → List Part
expression anchored directory_only core =
    (if not (has_slash core) && not anchored then optional_directories ∷ [] else [])
    ++ parts core
    ++ (if directory_only || not (has_slash core) || not (any is_wildcard (last_segment core))
        then optional_below ∷ []
        else [])

unfoldable pub compile_path_matcher : List ℕ → Result PatternError (List Part)
compile_path_matcher pattern =
    let core = trim_last (trim_first pattern) in
    if is_empty pattern
    then err empty_pattern
    else if starts_with pattern (33 ∷ [])
    then err negated
    else if any (λ c. nat_beq c 91 || nat_beq c 93 || nat_beq c backslash || nat_beq c 0) pattern
    then err unsupported
    else if contains pattern (slash ∷ slash ∷ [])
    then err empty_segment
    else if contains pattern (star ∷ star ∷ star ∷ [])
    then err too_many_stars
    else if is_empty core
    then err no_path
    else ok
        (expression (starts_with pattern (slash ∷ [])) (ends_in_slash (trim_first pattern)) core)

-- `strings.ReplaceAll(path, "\\", "/")`
unfoldable pub with_slashes : List ℕ → List ℕ
with_slashes [] = []
with_slashes (c ∷ s) = (if nat_beq c backslash then slash else c) ∷ with_slashes s

-- `strings.TrimPrefix(path, "./")`
unfoldable pub trim_here : List ℕ → List ℕ
trim_here (c ∷ d ∷ s) = if nat_beq c 46 && nat_beq d slash then s else c ∷ d ∷ s
trim_here s = s

-- `Match`; the engine of regular expressions is a parameter.
unfoldable pub match_path : (List Part → List ℕ → Bool) → List Part → List ℕ → Bool
match_path run matcher path =
    let p = trim_here (with_slashes path) in not (is_empty p) && run matcher p
