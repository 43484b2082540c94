-- ===== src/Controller/Strings.antt =====
-- `containsString` and `removeString` of internal/controller/srepolicy_controller.go.
use sre_operator.Common.{
  ◌<◌, ◌≡◌, ◌↔◌, Bool, true, false, List, [], ◌∷◌, Text, ◌==◌, eq_iff, count, if◌then◌else◌, arith,
}

unfoldable pub contains_string : List Text → Text → Bool
contains_string [] s = false
contains_string (v ∷ slice) s = let rest = contains_string slice s in if v == s then true else rest

unfoldable pub remove_string : List Text → Text → List Text
remove_string [] s = []
remove_string (v ∷ slice) s = let rest = remove_string slice s in if v == s then rest else v ∷ rest

pub contains_string_iff :
    (slice : List Text) (s : Text) → (contains_string slice s ≡ true) ↔ (0 < count s slice)
unfolding contains_string
contains_string_iff [] s = ground arith
contains_string_iff (v ∷ slice) s = ground (arith, contains_string_iff slice s)

pub count-remove_string :
    (slice : List Text) (s n : Text)
    → count n (remove_string slice s) ≡ (if s == n then 0 else count n slice)
unfolding remove_string
count-remove_string [] s n = ground arith
count-remove_string (v ∷ slice) s n =
    ground (arith, count-remove_string slice s n, eq_iff v s, eq_iff v n, eq_iff s n)
