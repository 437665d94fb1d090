-- ===== src/Greet/Streams.antt =====
-- greetservice/handler/handler.go: what the streaming calls send before they end.
use fawa.Common.{
  ℕ, zero, suc, ◌+◌, ◌<◌, String, str_eq, ◌≡◌, refl, ap, ◌∙◌, ◌⊎◌, inl, inr, List, [], ◌∷◌, ◌++◌,
  map, Option, none, some, Option-cases, arith, if◌then◌else◌,
}
use fawa.Greet.{
  hello, part, send_parts, greet_stream, Round, context_done, end_of_stream, receive_fails,
  receives, greet_bidi_stream,
}

module _ (decimal : ℕ → String) where
  -- The parts from `i` on, `n` of them.
  abbrev pub parts : String → ℕ → ℕ → List String
  parts name i zero = []
  parts name i (suc n) = part decimal name i ∷ parts name (suc i) n

  -- What a loop over the parts from `i` on has done: it sent `k` parts, and that was all `n` of them
  -- and no error, or the send of the next one failed and that is its error.
  abbrev pub Sent : (ℕ → Option String) → String → ℕ → ℕ → List String × Option String → Type 0
  Sent sends name i n out =
      (k : ℕ) × (out.0 ≡ parts name i k)
      × (((k ≡ n) × (out.1 ≡ none))
          ⊎ ((k < n) × ((e : String) × (sends (i + k) ≡ some e) × (out.1 ≡ some e))))

  send_parts-Sent :
      (sends : ℕ → Option String) (name : String) (i n : ℕ)
      → Sent sends name i n (send_parts decimal sends name i n)
  unfolding send_parts
  send_parts-Sent sends name i zero = (0, refl, inl (refl, refl))
  send_parts-Sent sends name i (suc n) = elim (Option-cases (sends i)) [
    | inl through ↦
        let (k, sent, ending) = send_parts-Sent sends name (suc i) n in
        (
          suc k,
          rw (through, send_parts) (ap (λ l. part decimal name i ∷ l) sent),
          elim ending [
            | inl (all, clean) ↦ inl (omega arith, rw (through, send_parts) clean)
            | inr (few, (e, failed, last)) ↦
                inr
                  (omega arith, (e, ap sends (omega arith) ∙ failed, rw (through, send_parts) last))
          ],
        )
    | inr (e, failed) ↦ (
      0,
      rw (failed, send_parts) refl,
      inr (omega arith, (e, ap sends (ground arith) ∙ failed, rw (failed, send_parts) refl)),
    )
  ]

  -- `GreetStream` sends the ten parts of the greeting, in order, and reports no error, or it sends
  -- those before the first one whose send fails and reports that error; no name is the world's.
  pub greet_stream-Sent :
      (sends : ℕ → Option String) (name : String)
      → Sent sends (if str_eq name "" then "World" else name) 0 10 (greet_stream decimal sends name)
  unfolding greet_stream
  greet_stream-Sent sends name =
      send_parts-Sent sends (if str_eq name "" then "World" else name) 0 10

-- How a call ends that has these rounds before it and did not answer the first of them; `none` is a
-- call that waits.
abbrev pub Ends : List Round → Option (Option String) → Type 0
Ends [] o = o ≡ none
Ends (context_done e ∷ rest) o = o ≡ some (some e)
Ends (end_of_stream ∷ rest) o = o ≡ some none
Ends (receive_fails e ∷ rest) o = o ≡ some (some e)
Ends (receives name (some e) ∷ rest) o = o ≡ some (some e)
Ends (receives name none ∷ rest) o = ⊥

-- The rounds of a call are those in which a name was received and the echo sent, then one that ends
-- the call, if any: exactly those names are greeted, in order, and the call ends with the error of
-- the round that ends it, with none at the end of the stream.
pub greet_bidi_stream-Ends :
    (rounds : List Round)
    → (names : List String) × (rest : List Round) × (rounds
        ≡ map (λ name. receives name none) names ++ rest)
      × ((greet_bidi_stream rounds).0 ≡ map hello names)
      × Ends rest (greet_bidi_stream rounds).1
unfolding greet_bidi_stream
greet_bidi_stream-Ends [] = ([], [], refl, refl, refl)
greet_bidi_stream-Ends (context_done e ∷ rest) = ([], _, refl, refl, refl)
greet_bidi_stream-Ends (end_of_stream ∷ rest) = ([], _, refl, refl, refl)
greet_bidi_stream-Ends (receive_fails e ∷ rest) = ([], _, refl, refl, refl)
greet_bidi_stream-Ends (receives name (some e) ∷ rest) = ([], _, refl, refl, refl)
greet_bidi_stream-Ends (receives name none ∷ rest) =
    let (names, others, split, greeted, ends) = greet_bidi_stream-Ends rest in
    (
      name ∷ names,
      others,
      ap (λ l. receives name none ∷ l) split,
      ap (λ l. hello name ∷ l) greeted,
      ends,
    )
