-- ===== src/Greet.antt =====
-- greetservice/handler/handler.go: the four calls of `GreetServiceHandler`. What a stream receives
-- and whether its sends go through is given. `fmt.Sprintf` of a number is a parameter.
pub mod Streams
mod Examples
use Prim.Native.String.{◌++◌ as ◌<>◌}
use fawa.Common.{
  ℕ, zero, suc, ◌+◌, String, str_eq, List, [], ◌∷◌, Option, none, some, if◌then◌else◌,
}

unfoldable pub hello : String → String
hello name = ("Hello, " <> name) <> "!"

-- A response of a call with one response, or an error.
pub data Answer : Type 0 where
  responds : String → Answer
  fails : String → Answer

-- `SayHello`
unfoldable pub say_hello : String → Answer
unfolding hello
say_hello name = responds (hello name)

-- `strings.Join` with a comma.
unfoldable pub join : List String → String
join [] = ""
join (a ∷ []) = a
join (a ∷ b ∷ rest) = a <> (", " <> join (b ∷ rest))

-- `GreetClientStream` on the names received and the error that the stream ends with.
unfoldable pub greet_client_stream : List String → Option String → Answer
unfolding join hello
greet_client_stream names (some e) = fails e
greet_client_stream names none = responds (hello (join names))

module _ (decimal : ℕ → String) where
  unfoldable pub part : String → ℕ → String
  unfolding hello
  part name i = ((hello name <> " (part ") <> decimal (i + 1)) <> ")"

  -- The loop of `GreetStream` with a number of rounds to go: what was sent, and its error, if any.
  -- `sends i` is the error of the send of part `i`, if any.
  unfoldable pub send_parts : (ℕ → Option String) → String → ℕ → ℕ → List String × Option String
  unfolding part
  send_parts sends name i zero = ([], none)
  send_parts sends name i (suc n) =
      let (sent, failed) = send_parts sends name (suc i) n in
      elim (sends i) [ some e ↦ ([], some e) | none ↦ (part name i ∷ sent, failed) ]

  unfoldable pub greet_stream : (ℕ → Option String) → String → List String × Option String
  unfolding send_parts
  greet_stream sends name = send_parts sends (if str_eq name "" then "World" else name) 0 10

-- One round of `GreetBidiStream`: the context is done, the stream ends or fails, or a name comes and
-- the echo is sent, with the error of the send, if any.
pub data Round : Type 0 where
  context_done : String → Round
  end_of_stream : Round
  receive_fails : String → Round
  receives : String → Option String → Round

-- The echoes that were sent, and how the call ends; `none` is a call that waits for more.
unfoldable pub greet_bidi_stream : List Round → List String × Option (Option String)
unfolding hello
greet_bidi_stream [] = ([], none)
greet_bidi_stream (context_done e ∷ rest) = ([], some (some e))
greet_bidi_stream (end_of_stream ∷ rest) = ([], some none)
greet_bidi_stream (receive_fails e ∷ rest) = ([], some (some e))
greet_bidi_stream (receives name (some e) ∷ rest) = ([], some (some e))
greet_bidi_stream (receives name none ∷ rest) =
    let (echoes, end) = greet_bidi_stream rest in (hello name ∷ echoes, end)
