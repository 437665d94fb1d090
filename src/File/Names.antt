-- ===== src/File/Names.antt =====
-- fileservice/handler/handler.go, the check of the file name in `SendFile`, with `filepath.IsAbs`
-- (on Unix) and `strings.Contains`.
use Prim.Native.String.{◌++◌}
use text.Mathlib.Text.{starts_with}
use text.Mathlib.TextPositions.{starts_with-append}
use text.Mathlib.TextLemmas.{nil-append, cons-append}
use text.Mathlib.TextEquality.{starts_with_iff}
use mathlib.Core.Bool.{true≢false}
use fawa.Common.{
  String, str_eq, eq_iff, ◌≡◌, ◌≢◌, sym, ap, ◌∙◌, Bool, true, false, ◌||◌, Option, none, some,
  arith, if◌then◌else◌, ◌↔◌, Bool-cases, inl, inr,
}

unfoldable pub is_abs : String → Bool
is_abs path = starts_with path "/"

-- Whether `part` stands anywhere in a text.
unfoldable pub contains : String → String → Bool
contains String.[] part = starts_with String.[] part
contains (String.◌∷◌ c s) part = starts_with (String.◌∷◌ c s) part || contains s part

-- The error of the check, if any.
unfoldable pub check_name : String → Option String
check_name name =
    if str_eq name ""
    then some "file name cannot be empty"
    else if is_abs name || contains name ".."
    then some "invalid file name"
    else none

contains_head : (s part : String) → starts_with s part ≡ true → contains s part ≡ true
unfolding contains
contains_head String.[] part h = h
contains_head (String.◌∷◌ c s) part h = rw h

contains-append : (a part b : String) → contains (a ++ (part ++ b)) part ≡ true
unfolding contains
contains-append String.[] part b =
    rw nil-append (contains_head (part ++ b) part (starts_with-append part b))
contains-append (String.◌∷◌ c a) part b =
    rw (cons-append, contains) (ground (arith, contains-append a part b))

check_name-cases :
    (name : String)
    → check_name name ≡ none
    → (name ≢ "") × (is_abs name ≡ false) × (contains name ".." ≡ false)
unfolding check_name
check_name-cases name passed = (ground (arith, eq_iff name ""), ground arith, ground arith)

is_abs-append : (rest : String) → is_abs ("/" ++ rest) ≡ true
unfolding is_abs
is_abs-append rest = starts_with-append "/" rest

contains-parts :
    (s part : String)
    → contains s part ≡ true
    → (a : String) × (b : String) × (s ≡ a ++ (part ++ b))
unfolding contains
contains-parts String.[] part h =
    let (b, e) = (starts_with_iff String.[] part).0 h in
    (String.[], b, sym (nil-append (part ++ b) ∙ e))
contains-parts (String.◌∷◌ c s) part h = elim (Bool-cases (starts_with (String.◌∷◌ c s) part)) [
  | inl front ↦
      let (b, e) = (starts_with_iff (String.◌∷◌ c s) part).0 front in
      (String.[], b, sym (nil-append (part ++ b) ∙ e))
  | inr later ↦
      let (a, b, e) = contains-parts s part (rw later at h) in
      (String.◌∷◌ c a, b, ap (λ x. String.◌∷◌ c x) e ∙ sym (cons-append c a (part ++ b)))
]

-- Not empty, with no slash in front and two dots in a row nowhere.
abbrev pub IsSafe : String → Type 0
IsSafe name =
    (name ≢ "")
    × ((rest : String) → name ≢ "/" ++ rest)
    × ((a b : String) → name ≢ a ++ (".." ++ b))

check_name-Safe : (name : String) → check_name name ≡ none → IsSafe name
check_name-Safe name passed =
    let (named, relative, inside) = check_name-cases name passed in
    (
      named,
      λ rest e. true≢false (sym (is_abs-append rest) ∙ (ap is_abs (sym e) ∙ relative)),
      λ a b e.
          true≢false
            (sym (contains-append a ".." b) ∙ (ap (λ s. contains s "..") (sym e) ∙ inside)),
    )

relative_of_safe : (name : String) → IsSafe name → is_abs name ≡ false
unfolding is_abs
relative_of_safe name (named, relative, inside) = elim (Bool-cases (starts_with name "/")) [
  | inl front ↦ let (rest, e) = (starts_with_iff name "/").0 front in absurd (relative rest (sym e))
  | inr other ↦ other
]

inside_of_safe : (name : String) → IsSafe name → contains name ".." ≡ false
inside_of_safe name (named, relative, inside) = elim (Bool-cases (contains name "..")) [
  | inl dots ↦ let (a, b, e) = contains-parts name ".." dots in absurd (inside a b e)
  | inr other ↦ other
]

-- A name passes the check exactly if it is not empty, has no slash in front and has two dots in a row
-- nowhere.
pub check_name-IsSafe : (name : String) → (check_name name ≡ none) ↔ IsSafe name
unfolding check_name
check_name-IsSafe name = (
  check_name-Safe name,
  λ safe.
      ground (arith, eq_iff name "", safe.0, relative_of_safe name safe, inside_of_safe name safe),
)
