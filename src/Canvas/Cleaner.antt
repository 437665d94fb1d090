-- ===== src/Canvas/Cleaner.antt =====
-- canvaservice/handler/handler.go, `sessionCleaner` and the lookup of sessions: which sessions stay
-- in the map.
use fawa.Common.{
  empty_of_length, ℕ, ◌+◌, ◌<◌, String, str_eq, eq_iff, ◌≡◌, refl, ◌≢◌, true, [], ◌∷◌, Option, none,
  some, arith, if◌then◌else◌, none-ne, ◌↔◌, ◌⊎◌, inl, inr, Bool-cases, Option-cases, sym, ◌∙◌,
}
use fawa.Common.Dict
use fawa.Common.Dict.{Dict, NodupKeys}
use fawa.Canvas.{
  CanvasSession, CanvasServiceHandler, is_expired, clean, session_expiry_duration, join_canvas,
  find_session, create_canvas, ok, enters,
}

abbrev pub sweep : ℕ → (ℕ → CanvasSession) → Option ℕ → Option ℕ
sweep now heap none = none
sweep now heap (some p) = if is_expired now (heap p) then none else some p

-- What the cleaner leaves under a code: the session there, unless it is expired.
pub lookup-clean :
    (now : ℕ) (heap : ℕ → CanvasSession) (code : String) (m : Dict ℕ)
    → NodupKeys m
    → Dict.lookup code (clean now heap m) ≡ sweep now heap (Dict.lookup code m)
unfolding clean Dict.lookup
lookup-clean now heap code [] u = refl
lookup-clean now heap code ((k, p) ∷ m) u =
    ground (arith, eq_iff k code, lookup-clean now heap code m u.1)

pub clean-NodupKeys :
    (now : ℕ) (heap : ℕ → CanvasSession) (m : Dict ℕ) → NodupKeys m → NodupKeys (clean now heap m)
unfolding clean
clean-NodupKeys now heap [] u = tt
clean-NodupKeys now heap ((k, p) ∷ m) u =
    ground (arith, clean-NodupKeys now heap m u.1, lookup-clean now heap k m u.1)

-- A session with no client that was last active more than ten minutes ago.
abbrev pub IsExpired : ℕ → CanvasSession → Type 0
IsExpired now s = (s.clients ≡ []) × (s.last_active + session_expiry_duration < now)

pub is_expired_iff : (now : ℕ) (s : CanvasSession) → (is_expired now s ≡ true) ↔ IsExpired now s
unfolding is_expired
is_expired_iff now s =
    (λ h. (empty_of_length s.clients (ground arith), ground arith), λ h. rw h.0 (ground arith))

-- The cleaner removes the session under a code exactly if it has no client and was last active more
-- than ten minutes ago, and otherwise keeps it under its code.
clean_exactly :
    (now : ℕ) (heap : ℕ → CanvasSession) (code : String) (m : Dict ℕ) (p : ℕ)
    → NodupKeys m
    → Dict.lookup code m ≡ some p
    → ((Dict.lookup code (clean now heap m) ≡ none) ↔ IsExpired now (heap p))
      × ((Dict.lookup code (clean now heap m) ≡ none)
          ⊎ (Dict.lookup code (clean now heap m) ≡ some p))
clean_exactly now heap code m p u found = elim (Bool-cases (is_expired now (heap p))) [
  | inl old ↦
      let gone : Dict.lookup code (clean now heap m) ≡ none =
        rw (lookup-clean now heap code m u, found, old) in
      ((λ _. (is_expired_iff now (heap p)).0 old, λ _. gone), inl gone)
  | inr fresh ↦
      let stays : Dict.lookup code (clean now heap m) ≡ some p =
        rw (lookup-clean now heap code m u, found, fresh) in
      (
        (λ e. none-ne (sym e ∙ stays), λ h. cc (fresh, (is_expired_iff now (heap p)).1 h)),
        inr stays,
      )
]

-- For a code that is not empty, `/join` answers that the canvas exists exactly if a WebSocket or
-- WebTransport request with that code gets past the guards, to the session under the code.
join_canvas-find_session :
    (code : String) (h : CanvasServiceHandler)
    → code ≢ ""
    → (join_canvas code h ≡ ok)
      ↔ ((p : ℕ) × (find_session code h ≡ enters p) × (Dict.lookup code h.sessions ≡ some p))
unfolding find_session join_canvas
join_canvas-find_session code h named = elim (Option-cases (Dict.lookup code h.sessions)) [
  | inl e ↦ (λ j. cc (rw (e, join_canvas) at j), λ (p, f, l). none-ne (sym e ∙ l))
  | inr (p, e) ↦ (λ _. (p, ground (arith, eq_iff code "", e), e), λ _. rw (e, join_canvas))
]

-- After a canvas is created, a request with its code is led to the new session, and a request with
-- any other code is answered as before.
pub find_session-create_canvas :
    (code other : String) (now : ℕ) (h : CanvasServiceHandler)
    → code ≢ ""
    → find_session other (create_canvas code now h).0
      ≡ (if str_eq code other then enters h.allocated else find_session other h)
unfolding find_session create_canvas
find_session-create_canvas code other now h named =
    rw (Dict.lookup-insert, find_session) (ground (arith, eq_iff code other, eq_iff other ""))
