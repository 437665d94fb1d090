-- ===== src/Route/Mux.antt =====
-- The request multiplexers that main.go of each service sets up: `http.ServeMux` as documented, for paths
-- that are clean and for patterns that are paths, of which none that ends in a slash lies under another
-- such one.
use Prim.Native.String.{◌++◌ as ◌<>◌, len}
use text.Mathlib.Text.{starts_with}
use fawa.Common.{
  ◌≡◌, refl, String, str_eq, Bool, false, ◌||◌, List, [], ◌∷◌, Option, none, some, ltb,
  if◌then◌else◌,
}
use fawa.Route.{Connect}
use fawa.Route.GreetConnect.{GreetServiceHandler, new_greet_service_handler}
use fawa.Route.FileConnect.{FileServiceHandler, new_file_service_handler}
use fawa.Route.CanvaConnect.{CanvaServiceHandler, new_canva_service_handler}

unfoldable pub ends_in_slash : String → Bool
ends_in_slash String.[] = false
ends_in_slash (String.◌∷◌ c s) = ends_in_slash s || str_eq (String.◌∷◌ c s) "/"

-- A pattern that ends in a slash stands for all paths under it.
unfoldable pub matches : String → String → Bool
unfolding ends_in_slash
matches pattern path =
    if ends_in_slash pattern then starts_with path pattern else str_eq path pattern

-- What a request is answered by.
pub data Served (H : Type 0) : Type 0 where
  served : H → Served H
  redirects : String → Served H
  not_found : Served H

module _ {H : Type 0} where
  unfoldable pub longer : String × H → Option (String × H) → Option (String × H)
  longer a none = some a
  longer (p, h) (some (q, k)) = if ltb (len p) (len q) then some (q, k) else some (p, h)

  -- The longest pattern that matches a path.
  unfoldable pub most_specific : List (String × H) → String → Option (String × H)
  unfolding matches longer
  most_specific [] path = none
  most_specific ((p, h) ∷ rest) path =
      let later = most_specific rest path in if matches p path then longer (p, h) later else later

  unfoldable pub has_pattern : List (String × H) → String → Bool
  has_pattern [] pattern = false
  has_pattern ((p, h) ∷ rest) pattern = str_eq p pattern || has_pattern rest pattern

  -- A path that lacks but the slash of a pattern is redirected to it.
  unfoldable pub serve : List (String × H) → String → Served H
  unfolding most_specific has_pattern
  serve routes path = elim (most_specific routes path) [
    | some (p, h) ↦ served h
    | none ↦ if has_pattern routes (path <> "/") then redirects (path <> "/") else not_found
  ]

-- The handlers of a service that is generated choose by the path once more.
module _ (C : Connect) where
  unfoldable pub greetservice_mux : GreetServiceHandler C → List (String × (String → C.Handler))
  unfolding new_greet_service_handler
  greetservice_mux svc = new_greet_service_handler C svc ∷ []

  unfoldable pub fileservice_mux : FileServiceHandler C → List (String × (String → C.Handler))
  unfolding new_file_service_handler
  fileservice_mux svc = new_file_service_handler C svc ∷ []

  unfoldable pub canvaxservice_mux : CanvaServiceHandler C → List (String × (String → C.Handler))
  unfolding new_canva_service_handler
  canvaxservice_mux svc = new_canva_service_handler C svc ∷ []

-- The handlers of canvaservice: its own, and those of `net/http/pprof`.
pub record CanvaserviceHandlers (H : Type 0) : Type 0 where
  pub handle_web_transport : H
  pub handle_web_socket : H
  pub health : H
  pub create_canvas : H
  pub join_canvas : H
  pub index : H
  pub cmdline : H
  pub profile : H
  pub symbol : H
  pub trace : H

unfoldable pub canvaservice_mux : {H : Type 0} → CanvaserviceHandlers H → List (String × H)
canvaservice_mux h =
    ("/webtransport/canva", h.handle_web_transport)
    ∷ ("/ws/canva", h.handle_web_socket)
    ∷ ("/health", h.health)
    ∷ ("/create", h.create_canvas)
    ∷ ("/join", h.join_canvas)
    ∷ ("/debug/pprof/", h.index)
    ∷ ("/debug/pprof/cmdline", h.cmdline)
    ∷ ("/debug/pprof/profile", h.profile)
    ∷ ("/debug/pprof/symbol", h.symbol)
    ∷ ("/debug/pprof/trace", h.trace)
    ∷ []

-- The mux of canvaservice hands each of its paths to the handler that it was registered with, although
-- four of them lie under the pattern of the index of pprof, which serves `heap` there; the path of the
-- index without its slash is redirected.
pub canvaservice_mux-serve :
    {H : Type 0} (h : CanvaserviceHandlers H)
    → let on : String → Served H = serve (canvaservice_mux h) in
      (on "/webtransport/canva" ≡ served h.handle_web_transport)
      × (on "/ws/canva" ≡ served h.handle_web_socket)
      × (on "/health" ≡ served h.health)
      × (on "/create" ≡ served h.create_canvas)
      × (on "/join" ≡ served h.join_canvas)
      × (on "/debug/pprof/cmdline" ≡ served h.cmdline)
      × (on "/debug/pprof/profile" ≡ served h.profile)
      × (on "/debug/pprof/symbol" ≡ served h.symbol)
      × (on "/debug/pprof/trace" ≡ served h.trace)
      × (on "/debug/pprof/heap" ≡ served h.index)
      × (on "/debug/pprof" ≡ redirects "/debug/pprof/")
unfolding serve most_specific matches ends_in_slash longer has_pattern canvaservice_mux
canvaservice_mux-serve h = (refl, refl, refl, refl, refl, refl, refl, refl, refl, refl, refl)
