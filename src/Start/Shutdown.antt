-- ===== src/Start/Shutdown.antt =====
-- main.go of the services: how a service ends after a signal. `net/http` is modelled as documented:
-- `Shutdown` makes `ListenAndServe` return at once and then waits for the requests in flight, or for the end
-- of its context; when main returns, or at `os.Exit`, the process ends, whatever is in flight.
use fawa.Common.{
  ℕ, zero, suc, ◌+◌, ◌≡◌, refl, ap, ◌∙◌, inl, inr, Bool, true, false, List, [], ◌∷◌, ◌++◌, Option,
  none, some, ◌==◌, ◌&&◌, if◌then◌else◌, replicate, arith, Bool-cases,
}
use fawa.Config.{Fwlog}
use fawa.Start.{
  Effect, closes_handler, closes_http3, shuts_down, exits, stop_canvaxservice, stop_fileservice,
  stop_greetservice, stop_canvaservice,
}

-- `in_flight` counts the requests that `Shutdown` of `net/http` knows of: connections that were hijacked, as
-- those of WebSocket are, it neither counts nor waits for.
-- `stopper` is what the goroutine that waits for the signal has still to do, and `none` before the
-- signal. Main is in `ListenAndServe`.
pub record Service (F : Fwlog) : Type 0 where
  pub listening : Bool
  pub in_flight : ℕ
  pub stopper : Option (List (Effect F))

-- A process that ended keeps the number of requests that were in flight.
pub data Status (F : Fwlog) : Type 0 where
  up : Service F → Status F
  ended_with : ℕ → Status F

pub data Action : Type 0 where
  arrives finishes signals stops times_out main_returns : Action

module _ {F : Fwlog} where
  abbrev pub serving : ℕ → Service F
  serving n = record { listening = true; in_flight = n; stopper = none }

  -- The next effect of the goroutine.
  unfoldable pub stop_step : List (Effect F) → Service F → Option (Status F)
  stop_step (closes_handler ∷ rest) s = some (up (record s { stopper = some rest }))
  stop_step (closes_http3 ∷ rest) s = some (up (record s { stopper = some rest }))
  stop_step (shuts_down ∷ rest) s =
      if s.listening
      then some (up (record s { listening = false; stopper = some (shuts_down ∷ rest) }))
      else if s.in_flight == 0
      then some (up (record s { stopper = some rest }))
      else none
  stop_step (exits ∷ rest) s = some (ended_with s.in_flight)
  stop_step _ s = none

  -- The end of the context of `Shutdown`, while it waits.
  unfoldable pub timeout_step : List (Effect F) → Service F → Option (Status F)
  timeout_step (shuts_down ∷ rest) s =
      if s.listening then none else some (up (record s { stopper = some rest }))
  timeout_step _ s = none

  unfoldable pub finish_step : ℕ → Service F → Option (Status F)
  finish_step zero s = none
  finish_step (suc n) s = some (up (record s { in_flight = n }))

  module _ (effects : List (Effect F)) where
    unfoldable pub step : Action → Service F → Option (Status F)
    unfolding stop_step timeout_step finish_step
    step arrives s =
        if s.listening then some (up (record s { in_flight = suc s.in_flight })) else none
    step finishes s = finish_step s.in_flight s
    step signals s = elim s.stopper [
      | none ↦ some (up (record s { stopper = some effects }))
      | some es ↦ none
    ]
    step stops s = elim s.stopper [ none ↦ none | some es ↦ stop_step es s ]
    step times_out s = elim s.stopper [ none ↦ none | some es ↦ timeout_step es s ]
    step main_returns s = if s.listening then none else some (ended_with s.in_flight)

    unfoldable pub run : List Action → Status F → Option (Status F)
    unfolding step
    run [] s = some s
    run (a ∷ rest) (ended_with n) = none
    run (a ∷ rest) (up s) = elim (step a s) [ none ↦ none | some t ↦ run rest t ]

    -- After `n` requests and a signal the goroutine takes some steps, and then main returns and the
    -- process ends with all of them in flight.
    abbrev pub CanEndWith : ℕ → Type 0
    CanEndWith n =
        (k : ℕ) × (run (replicate n arrives ++ (signals ∷ (replicate k stops ++ main_returns ∷ [])))
            (up (serving 0))
          ≡ some (ended_with n))

    run-arrivals :
        (n k : ℕ) (rest : List Action)
        → run (replicate n arrives ++ rest) (up (serving k)) ≡ run rest (up (serving (n + k)))
    unfolding run
    run-arrivals zero k rest = ap (λ m. run rest (up (serving m))) (omega arith)
    run-arrivals (suc n) k rest =
        run-arrivals n (suc k) rest ∙ ap (λ m. run rest (up (serving m))) (omega arith)

    after_arrivals :
        (n k : ℕ)
        → run (signals ∷ (replicate k stops ++ main_returns ∷ [])) (up (serving n))
          ≡ some (ended_with n)
        → CanEndWith n
    after_arrivals n k h = (
      k,
      run-arrivals n 0 (signals ∷ (replicate k stops ++ main_returns ∷ []))
          ∙ (ap (λ m. run (signals ∷ (replicate k stops ++ main_returns ∷ [])) (up (serving m)))
                (omega arith)
              ∙ h),
    )

-- In each of the four services, after any number of requests and a signal, the signal goroutine can take
-- a number of steps after which main returns and the process ends with all these requests in flight.
pub ends_in_flight :
    (F : Fwlog) (n : ℕ) (use_tls h3_server : Bool)
    → CanEndWith {F = F} stop_canvaxservice n
      × CanEndWith {F = F} stop_fileservice n
      × CanEndWith {F = F} stop_greetservice n
      × CanEndWith {F = F} (stop_canvaservice use_tls h3_server) n
unfolding run step stop_step stop_canvaxservice stop_fileservice stop_greetservice stop_canvaservice
ends_in_flight F n use_tls h3_server = (
  after_arrivals _ n 2 refl,
  after_arrivals _ n 2 refl,
  after_arrivals _ n 1 refl,
  elim (Bool-cases (use_tls && h3_server)) [
    | inl h3 ↦ after_arrivals _ n 2 (rw h3 refl)
    | inr no_h3 ↦ after_arrivals _ n 1 (rw no_h3 refl)
  ],
)
