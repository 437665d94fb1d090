-- ===== src/Greet/Examples.antt =====
-- Runs of the greeting service.
use fawa.Common.{
  ℕ, String, ◌≡◌, refl, List, [], ◌∷◌, ◌++◌, map, Option, none, some, ◌==◌, if◌then◌else◌, length,
}
use fawa.Greet.{
  hello, responds, say_hello, greet_client_stream, greet_stream, Round, end_of_stream, receives,
  greet_bidi_stream,
}
use fawa.Greet.Streams.{Ends, greet_bidi_stream-Ends}

-- The numbers of the parts.
abbrev pub numeral : ℕ → String
numeral n = if n == 1 then "1" else if n == 2 then "2" else if n == 3 then "3" else "more"

-- The send of the third part fails.
abbrev third_fails : ℕ → Option String
third_fails i = if i == 2 then some "broken pipe" else none

two_parts :
    greet_stream numeral third_fails ""
    ≡ ("Hello, World! (part 1)" ∷ "Hello, World! (part 2)" ∷ [], some "broken pipe")
unfolding greet_stream
two_parts = refl

ten_parts : length (greet_stream numeral (λ i. none) "fawa").0 ≡ 10
unfolding greet_stream
ten_parts = refl

abbrev rounds : List Round
rounds = receives "a" none ∷ receives "b" none ∷ end_of_stream ∷ []

echoes : (greet_bidi_stream rounds).0 ≡ "Hello, a!" ∷ "Hello, b!" ∷ []
unfolding greet_bidi_stream
echoes = refl

greet_bidi_stream-Ends_example :
    (names : List String) × (rest : List Round) × (rounds
      ≡ map (λ name. receives name none) names ++ rest)
    × ((greet_bidi_stream rounds).0 ≡ map hello names)
    × Ends rest (greet_bidi_stream rounds).1
greet_bidi_stream-Ends_example = greet_bidi_stream-Ends rounds

summary : greet_client_stream ("a" ∷ "b" ∷ "c" ∷ []) none ≡ responds "Hello, a, b, c!"
unfolding greet_client_stream
summary = refl

greeting : say_hello "fawa" ≡ responds "Hello, fawa!"
unfolding say_hello
greeting = refl
