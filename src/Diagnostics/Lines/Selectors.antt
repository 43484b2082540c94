-- ===== src/Diagnostics/Lines/Selectors.antt =====
-- `parseSelector` on a pair written as "key=value".
use sre_operator.Common.{ℕ, ◌≡◌, refl, true, some, [], ◌∷◌, ◌++◌, Text, put, arith}
use sre_operator.Diagnostics.Lines.{
  split, split_two, trim_space, put_pair, put_parts, parse_selector,
}
use sre_operator.Diagnostics.Lines.Cut.{lacks}

split-lacks : (b : ℕ) (s : Text) → lacks b s ≡ true → split b s ≡ (s, [])
unfolding split
split-lacks b [] h = refl
split-lacks b (c ∷ s) h = ground (arith, split-lacks b s)

split_two-append :
    (b : ℕ) (key value : Text)
    → lacks b key ≡ true
    → split_two b (key ++ b ∷ value) ≡ some (key, value)
unfolding split_two
split_two-append b [] value h = ground arith
split_two-append b (c ∷ key) value h = ground (arith, split_two-append b key value)

-- A selector "key=value" gives the one label `key` with that value, if it holds no comma, the key
-- has no "=", and no white space stands at its ends.
pub parse_selector-pair :
    (key value : Text)
    → lacks b',' (key ++ b'=' ∷ value) ≡ true
    → lacks b'=' key ≡ true
    → trim_space (key ++ b'=' ∷ value) ≡ key ++ b'=' ∷ value
    → parse_selector (key ++ b'=' ∷ value) ≡ (key, value) ∷ []
unfolding parse_selector put_parts put_pair put
parse_selector-pair key value c e t =
    rw (split-lacks b',' (key ++ b'=' ∷ value) c, t, split_two-append b'=' key value e)
