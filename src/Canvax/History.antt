-- ===== src/Canvax/History.antt =====
-- canvaxservice/handler/handler.go, `addToHistory`: what the history keeps.
use fawa.Common.{
  ℕ, zero, suc, refl, sym, ap, ◌∙◌, subst, ◌⊎◌, append-nil, ◌+◌, ◌/◌, ◌≤◌, ◌≡◌, List, [], ◌∷◌, ◌++◌,
  append_assoc, arith, true, inl, inr, Bool-cases, leb, length, length-append, length-drop, drop,
  drop-append,
}
use fawa.Canvax.{DrawEvent, CanvaServiceHandler, history_limit, trim, add_to_history}

length-trim :
    (xs : List DrawEvent) → length xs ≤ history_limit → length (trim xs) + 1 ≤ history_limit
unfolding trim
length-trim xs h = ground (arith, length-drop (length xs / 2) xs)

-- The history never grows past its limit.
pub length-add_to_history :
    (e : DrawEvent) (h : CanvaServiceHandler)
    → length h.history ≤ history_limit
    → length (add_to_history e h).history ≤ history_limit
unfolding add_to_history
length-add_to_history e h le =
    omega (arith, length-append (trim h.history) (e ∷ []), length-trim h.history le)

-- Trimming keeps every end part of up to half the limit.
trim-append :
    (old recent : List DrawEvent)
    → length recent ≤ 500
    → (kept : List DrawEvent) × (trim (old ++ recent) ≡ kept ++ recent)
unfolding trim
trim-append old recent h = elim (Bool-cases (leb history_limit (length (old ++ recent)))) [
  | inl full ↦
      (drop (length (old ++ recent) / 2) old, rw full (drop-append _ old recent (half full)))
  | inr room ↦ (old, rw room)
]
  where
    half :
        leb history_limit (length (old ++ recent)) ≡ true → length (old ++ recent) / 2 ≤ length old
    half full = ground (arith, length-append old recent)

-- Adding an event keeps the last 500 events before it, whatever was trimmed, and puts the new event
-- at the end.
add_to_history-append :
    (e : DrawEvent) (h : CanvaServiceHandler) (old recent : List DrawEvent)
    → h.history ≡ old ++ recent
    → length recent ≤ 500
    → (kept : List DrawEvent) × ((add_to_history e h).history ≡ kept ++ (recent ++ e ∷ []))
unfolding add_to_history
add_to_history-append e h old recent split le =
    let (kept, p) = trim-append old recent le in
    (kept, rw (split, p) (append_assoc kept recent (e ∷ [])))

-- The history after some events were added, one after the other.
abbrev pub add_all : List DrawEvent → CanvaServiceHandler → CanvaServiceHandler
add_all [] h = h
add_all (e ∷ es) h = add_all es (add_to_history e h)

-- `history` is an end part of all events: all of them, or at least 501 and at most 1000 of them.
abbrev pub IsWindow : List DrawEvent → List DrawEvent → Type 0
IsWindow all history =
    (forgotten : List DrawEvent) × (all ≡ forgotten ++ history)
    × (length history ≤ history_limit)
    × ((forgotten ≡ []) ⊎ (501 ≤ length history))

drop-split : (n : ℕ) (xs : List DrawEvent) → (front : List DrawEvent) × (xs ≡ front ++ drop n xs)
drop-split zero xs = ([], refl)
drop-split (suc n) [] = ([], refl)
drop-split (suc n) (x ∷ xs) = let (front, e) = drop-split n xs in (x ∷ front, ap (λ l. x ∷ l) e)

add_to_history-IsWindow :
    (all : List DrawEvent) (e : DrawEvent) (h : CanvaServiceHandler)
    → IsWindow all h.history
    → IsWindow (all ++ e ∷ []) (add_to_history e h).history
unfolding add_to_history trim
add_to_history-IsWindow all e h (forgotten, split, le, much) =
    elim (Bool-cases (leb history_limit (length h.history))) [
      | inl full ↦
          let (front, cut) = drop-split (length h.history / 2) h.history in
          (
            forgotten ++ front,
            rw (full, trim)
                (ap (λ l. l ++ e ∷ []) (split ∙ ap (λ l. forgotten ++ l) cut) ∙ simp append_assoc),
            length-add_to_history e h le,
            inr (
                let big : history_limit ≤ length h.history = ground arith in
                rw (full, trim)
                  (omega (
                    arith,
                    length-append (drop (length h.history / 2) h.history) (e ∷ []),
                    length-drop (length h.history / 2) h.history,
                  ))),
          )
      | inr room ↦ (
        forgotten,
        rw (room, trim) (ap (λ l. l ++ e ∷ []) split ∙ append_assoc forgotten h.history (e ∷ [])),
        length-add_to_history e h le,
        elim much [
          | inl none_yet ↦ inl none_yet
          | inr many ↦ inr (rw (room, trim) (omega (arith, length-append h.history (e ∷ []))))
        ],
      )
    ]

add_all_from-IsWindow :
    (all es : List DrawEvent) (h : CanvaServiceHandler)
    → IsWindow all h.history
    → IsWindow (all ++ es) (add_all es h).history
add_all_from-IsWindow all [] h w = subst (λ l. IsWindow l h.history) (sym (append-nil all)) w
add_all_from-IsWindow all (e ∷ es) h w =
    subst (λ l. IsWindow l (add_all es (add_to_history e h)).history) (append_assoc all (e ∷ []) es)
      (add_all_from-IsWindow (all ++ e ∷ []) es (add_to_history e h)
        (add_to_history-IsWindow all e h w))

-- Whatever events are added to an empty history, one after the other, it then holds an end part of
-- them: all of them, or at least 501 and at most 1000.
pub add_all-IsWindow :
    (es : List DrawEvent) (h : CanvaServiceHandler)
    → h.history ≡ []
    → IsWindow es (add_all es h).history
add_all-IsWindow es h none_yet =
    add_all_from-IsWindow [] es h ([], sym none_yet, omega (arith, ap length none_yet), inl refl)
