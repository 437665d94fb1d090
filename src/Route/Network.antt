-- ===== src/Route/Network.antt =====
-- Calls of the generated clients over a network in which the mux of a service answers.
use Prim.Native.String.{◌++◌ as ◌<>◌}
use fawa.Common.{String, ◌≡◌, ap, ◌∙◌, List, Option, some}
use fawa.Route.{Connect, Calls, IsLawfulCalls}
use fawa.Route.Mux.{served, serve}
use fawa.Route.Agreement.{Reaches}

-- Below `origin` the network finds what the mux of a service serves.
abbrev pub IsServed :
    (C : Connect)
    → String
    → List (String × (String → C.Handler))
    → (String → Option C.Handler)
    → Type 0
IsServed C origin routes net =
    (path : String) (handler : String → C.Handler)
    → serve routes path ≡ served handler
    → net (origin <> path) ≡ some (handler path)

-- A client that reaches the handler of a method calls that method.
module _ (C : Connect) (Method Run : Type 0) (new_handler : String → Method → C.Handler)
    (Q : Calls C Method new_handler Run) (L : IsLawfulCalls C Method new_handler Run Q)
    (origin : String) (routes : List (String × (String → C.Handler)))
    (net : String → Option C.Handler) (client : C.Client) (procedure : String) (run : Run) where
  pub Reaches-call :
      IsServed C origin routes net
      → Reaches C origin client routes (new_handler procedure (Q.method run))
      → Q.call client net ≡ some run
  Reaches-call on (path, at_path, (handler, found, expected)) =
      L.call-method client net procedure run
        (ap net at_path ∙ (on path handler found ∙ ap (λ h. some h) expected))
