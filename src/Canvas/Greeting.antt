-- ===== src/Canvas/Greeting.antt =====
-- canvaservice/handler/handler.go, `HandleWebSocket` and `HandleWebTransport`: the initial history that
-- a call sends.
use fawa.Common.{ℕ, ◌≡◌, List, [], ◌++◌}
use fawa.Canvas.{DrawEvent, CanvasSession, ClientDrawResponse, initial_response}
use fawa.Canvas.System.{System, Pc, copied, reading, adding, sending, touching, leaving, gone}

-- A history that has been added to, at its end.
abbrev pub Extends : List DrawEvent → List DrawEvent → Type 0
Extends h l = (more : List DrawEvent) × (l ≡ h ++ more)

-- What was written is one message with what the history began with, or nothing, as where the write
-- failed or there was no history.
abbrev pub Greeted : List ClientDrawResponse → List DrawEvent → Type 0
Greeted g now = (h : List DrawEvent) × (g ≡ initial_response h) × Extends h now

-- What a call at a place has sent on its connection itself.
abbrev pub Told : Pc → List ClientDrawResponse → (ℕ → CanvasSession) → Type 0
Told (copied c es) g heap = (g ≡ []) × Extends es (heap c.session).history
Told (reading c) g heap = Greeted g (heap c.session).history
Told (adding c e) g heap = Greeted g (heap c.session).history
Told (sending c e) g heap = Greeted g (heap c.session).history
Told (touching c) g heap = Greeted g (heap c.session).history
Told (leaving c) g heap = Greeted g (heap c.session).history
Told gone g heap = Unit {0}
Told _ g heap = g ≡ []

abbrev Greeting : System → Type 0
Greeting s = (i : ℕ) → Told (s.pc i) (s.greeted i) s.heap
