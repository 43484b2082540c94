-- ===== src/Diagnostics/Lines.antt =====
-- The text functions of internal/diagnostics/logcollector.go, over byte strings, with the parts of
-- Go's `strings` and `bufio` that they use.
pub mod Cut
pub mod Selectors
use sre_operator.Common.{
  ℕ, zero, suc, ◌+◌, ◌-◌, Bool, true, false, ◌&&◌, ◌||◌, not, Option, none, some, List, [], ◌∷◌,
  ◌++◌, Text, str, ◌==◌, Dict, put, length, take, drop, nat_eq, ltb, leb, if◌then◌else◌,
}
use sre_operator.Api.Enums.{SeverityLevel}

-- `strings.HasPrefix`
unfoldable pub has_prefix : Text → Text → Bool
has_prefix s [] = true
has_prefix [] (p ∷ ps) = false
has_prefix (c ∷ s) (p ∷ ps) = nat_eq c p && has_prefix s ps

-- `strings.Contains`
unfoldable pub contains : Text → Text → Bool
unfolding has_prefix
contains [] p = has_prefix [] p
contains (c ∷ s) p = let rest = contains s p in if has_prefix (c ∷ s) p then true else rest

-- `strings.Index` of a single byte.
unfoldable pub index_byte : ℕ → Text → Option ℕ
index_byte b [] = none
index_byte b (c ∷ s) =
    let rest = index_byte b s in
    if nat_eq c b then some 0 else elim rest [ none ↦ none | some i ↦ some (suc i) ]

-- `strings.Split` by one byte; the result has at least one part.
unfoldable pub split : ℕ → Text → Text × List Text
split b [] = ([], [])
split b (c ∷ s) =
    let (part, parts) = split b s in if nat_eq c b then ([], part ∷ parts) else (c ∷ part, parts)

-- `strings.SplitN` by one byte into at most two parts: none if the byte does not occur.
unfoldable pub split_two : ℕ → Text → Option (Text × Text)
split_two b [] = none
split_two b (c ∷ s) =
    let rest = split_two b s in
    if nat_eq c b
    then some ([], s)
    else elim rest [ none ↦ none | some (key, value) ↦ some (c ∷ key, value) ]

-- White space, of ASCII.
is_space : ℕ → Bool
is_space c = nat_eq c 32 || (leb 9 c && leb c 13)

unfoldable pub trim_left : Text → Text
unfolding is_space
trim_left [] = []
trim_left (c ∷ s) = let rest = trim_left s in if is_space c then rest else c ∷ s

unfoldable pub trim_right : Text → Text
unfolding is_space
trim_right [] = []
trim_right (c ∷ s) = elim (trim_right s) [
  | [] ↦ if is_space c then [] else c ∷ []
  | d ∷ r ↦ c ∷ d ∷ r
]

-- `strings.TrimSpace`
unfoldable pub trim_space : Text → Text
unfolding trim_left trim_right
trim_space s = trim_right (trim_left s)

-- `strings.ToLower`, of ASCII.
unfoldable pub to_lower : Text → Text
to_lower [] = []
to_lower (c ∷ s) = (if leb 65 c && leb c 90 then c + 32 else c) ∷ to_lower s

unfoldable pub classify_log_severity : Text → SeverityLevel
unfolding to_lower contains
classify_log_severity line =
    let lower = to_lower line in
    if contains lower (str "panic")
      || contains lower (str "fatal")
      || contains lower (str "oom")
      || contains lower (str "kill")
    then SeverityLevel.critical
    else SeverityLevel.warning

-- `line[10] == 'T'`, on a line that is long enough.
unfoldable pub byte_at : ℕ → Text → ℕ
byte_at i [] = 0
byte_at zero (c ∷ s) = c
byte_at (suc i) (c ∷ s) = byte_at i s

-- `if idx := strings.Index(line, " "); idx > 0`
after_space : Option ℕ → Text → Text
unfolding trim_space
after_space none line = line
after_space (some zero) line = line
after_space (some (suc i)) line = trim_space (drop (suc (suc i)) line)

unfoldable pub strip_kube_timestamp : Text → Text
unfolding byte_at after_space index_byte
strip_kube_timestamp line =
    if ltb 30 (length line) && nat_eq (byte_at 10 line) b'T'
    then after_space (index_byte 32 line) line
    else line

unfoldable pub truncate : Text → ℕ → Text
truncate s max = if leb (length s) max then s else take max s

-- The loop of `parseSelector` over the parts between commas.
put_pair : Option (Text × Text) → Dict Text → Dict Text
put_pair none m = m
put_pair (some (key, value)) m = put key value m

put_parts : List Text → Dict Text → Dict Text
unfolding put_pair split_two trim_space
put_parts [] m = m
put_parts (part ∷ parts) m = put_parts parts (put_pair (split_two b'=' (trim_space part)) m)

unfoldable pub parse_selector : Text → Dict Text
unfolding put_parts split
parse_selector selector = let (part, parts) = split b',' selector in put_parts (part ∷ parts) []
