-- ===== src/Route/Agreement.antt =====
-- The generated clients and handlers agree on the paths of all methods.
use Prim.Native.String.{◌++◌ as ◌<>◌}
use Prim.Native.Char.{Char}
use text.Mathlib.TextLemmas.{
  nil-append, cons-append, tail-eq_of_cons-eq, append-ne-nil_of_right_ne-nil, nil≢cons,
}
use fawa.Common.{
  ℕ, zero, suc, String, str_eq, eq_iff, ◌≡◌, ◌≢◌, refl, sym, ap, ◌∙◌, Bool-cases, inl, inr, false,
  List, [], ◌∷◌, All,
}
use fawa.Route.{Connect, IsLawfulConnect, switch, trim_right}
use fawa.Route.Mux.{
  ends_in_slash, matches, served, longer, most_specific, serve, greetservice_mux, fileservice_mux,
  canvaxservice_mux,
}
use fawa.Route.GreetConnect.{
  GreetServiceHandler, greet_cases, new_greet_service_handler, new_greet_service_client,
  say_hello_procedure, greet_stream_procedure, greet_client_stream_procedure,
  greet_bidi_stream_procedure,
}
use fawa.Route.FileConnect.{
  FileServiceHandler, file_cases, new_file_service_handler, new_file_service_client,
  send_file_procedure, receive_file_procedure, get_download_url_procedure,
}
use fawa.Route.CanvaConnect.{
  CanvaServiceHandler, canva_cases, new_canva_service_handler, new_canva_service_client,
  collaborate_procedure,
}

abbrev pub slashes : ℕ → String
slashes zero = ""
slashes (suc n) = "/" <> slashes n

-- What `trim_right` takes off is slashes.
trimmed : (s : String) → (n : ℕ) × (s ≡ trim_right s <> slashes n)
unfolding trim_right
trimmed String.[] = (0, refl)
trimmed (String.◌∷◌ c s) =
    let (n, e) = trimmed s in
    elim (Bool-cases (str_eq (String.◌∷◌ c (trim_right s)) "/")) [
      | inl slash ↦ (
        suc n,
        rw slash (
            ap (λ r. String.◌∷◌ c r) e
            ∙ (sym (cons-append c (trim_right s) (slashes n))
                ∙ (ap (λ r. r <> slashes n) ((eq_iff _ _).0 slash) ∙ sym (nil-append _)))),
      )
      | inr other ↦ (
        n,
        rw other (ap (λ r. String.◌∷◌ c r) e ∙ sym (cons-append c (trim_right s) (slashes n))),
      )
    ]

kept-ne :
    (c : Char) (r t : String)
    → str_eq (String.◌∷◌ c r) "/" ≡ false
    → ((u : String) → r ≢ u <> "/")
    → String.◌∷◌ c r ≢ t <> "/"
kept-ne c r String.[] other rest h =
    cc (other, (eq_iff (String.◌∷◌ c r) "/").1 (h ∙ nil-append "/"))
kept-ne c r (String.◌∷◌ d t) other rest h = rest t (tail-eq_of_cons-eq (h ∙ cons-append d t "/"))

-- What it leaves does not end in a slash.
trim_right-ne : (s t : String) → trim_right s ≢ t <> "/"
unfolding trim_right
trim_right-ne String.[] t h = append-ne-nil_of_right_ne-nil t (λ e. nil≢cons (sym e)) (sym h)
trim_right-ne (String.◌∷◌ c s) t h = elim (Bool-cases (str_eq (String.◌∷◌ c (trim_right s)) "/")) [
  | inl slash ↦
      append-ne-nil_of_right_ne-nil t (λ e. nil≢cons (sym e)) (sym (rw (slash, trim_right) at h))
  | inr other ↦ kept-ne c (trim_right s) t other (trim_right-ne s) (rw (other, trim_right) at h)
]

-- A request to the URL of the client comes, below the origin, through the mux to a handler, and from
-- there to `expected`.
abbrev pub Reaches :
    (C : Connect) → String → C.Client → List (String × (String → C.Handler)) → C.Handler → Type 0
Reaches C origin client routes expected =
    (path : String) × (C.url client ≡ origin <> path)
    × ((handler : String → C.Handler) × (serve routes path ≡ served handler)
        × (handler path ≡ expected))

-- The clients made for the base URL `base` reach the methods of a handler below `origin`.
module _ (C : Connect) (origin base : String) where
  abbrev pub GreetReaches : GreetServiceHandler C → Type 0
  GreetReaches g =
      let client = new_greet_service_client C base in
      let Reach : C.Client → C.Handler → Type 0 =
        λ cl e. Reaches C origin cl (greetservice_mux C g) e in
      Reach client.say_hello (C.new_unary_handler say_hello_procedure g.say_hello)
      × Reach client.greet_stream
          (C.new_server_stream_handler greet_stream_procedure g.greet_stream)
      × Reach client.greet_client_stream
          (C.new_client_stream_handler greet_client_stream_procedure g.greet_client_stream)
      × Reach client.greet_bidi_stream
          (C.new_bidi_stream_handler greet_bidi_stream_procedure g.greet_bidi_stream)

  abbrev pub FileReaches : FileServiceHandler C → Type 0
  FileReaches f =
      let client = new_file_service_client C base in
      let Reach : C.Client → C.Handler → Type 0 =
        λ cl e. Reaches C origin cl (fileservice_mux C f) e in
      Reach client.send_file (C.new_client_stream_handler send_file_procedure f.send_file)
      × Reach client.receive_file
          (C.new_server_stream_handler receive_file_procedure f.receive_file)
      × Reach client.get_download_url
          (C.new_unary_handler get_download_url_procedure f.get_download_url)

  abbrev pub CanvaReaches : CanvaServiceHandler C → Type 0
  CanvaReaches c =
      Reaches C origin (new_canva_service_client C base).collaborate (canvaxservice_mux C c)
        (C.new_bidi_stream_handler collaborate_procedure c.collaborate)

module _ (C : Connect) (L : IsLawfulConnect C) (base : String) where
  pub greet_clients-Reaches : (g : GreetServiceHandler C) → GreetReaches C (trim_right base) base g
  unfolding new_greet_service_client new_greet_service_handler greetservice_mux serve most_specific
      matches ends_in_slash longer
  greet_clients-Reaches g = (
    (say_hello_procedure, L.url-new_client _, (_, refl, refl)),
    (greet_stream_procedure, L.url-new_client _, (_, refl, refl)),
    (greet_client_stream_procedure, L.url-new_client _, (_, refl, refl)),
    (greet_bidi_stream_procedure, L.url-new_client _, (_, refl, refl)),
  )

  pub file_clients-Reaches : (f : FileServiceHandler C) → FileReaches C (trim_right base) base f
  unfolding new_file_service_client new_file_service_handler fileservice_mux serve most_specific
      matches ends_in_slash longer
  file_clients-Reaches f = (
    (send_file_procedure, L.url-new_client _, (_, refl, refl)),
    (receive_file_procedure, L.url-new_client _, (_, refl, refl)),
    (get_download_url_procedure, L.url-new_client _, (_, refl, refl)),
  )

  pub canva_client-Reaches : (c : CanvaServiceHandler C) → CanvaReaches C (trim_right base) base c
  unfolding new_canva_service_client new_canva_service_handler canvaxservice_mux serve most_specific
      matches ends_in_slash longer
  canva_client-Reaches c = (collaborate_procedure, L.url-new_client _, (_, refl, refl))

-- Every base URL is an origin that ends in no slash, and slashes; and each of the eight methods of the
-- generated clients calls a URL under that origin with a path that the mux of the service hands to the
-- generated handler, and this to the handler made of that very method.
pub clients-Reaches :
    (C : Connect) (base : String) (g : GreetServiceHandler C) (f : FileServiceHandler C)
    (c : CanvaServiceHandler C)
    → IsLawfulConnect C
    → (origin : String) × ((n : ℕ) × (base ≡ origin <> slashes n))
      × ((s : String) → origin ≢ s <> "/")
      × GreetReaches C origin base g
      × FileReaches C origin base f
      × CanvaReaches C origin base c
clients-Reaches C base g f c L = (
  trim_right base,
  trimmed base,
  trim_right-ne base,
  greet_clients-Reaches C L base g,
  file_clients-Reaches C L base f,
  canva_client-Reaches C L base c,
)

switch-other {ℓ} :
    {H : Type ℓ} (cases : List (String × H)) (other : H) (path : String)
    → All (λ (c : String × H). path ≢ c.0) cases
    → switch cases other path ≡ other
unfolding switch
switch-other [] other path none_of = refl
switch-other ((p, h) ∷ cases) other path (ne, none_of) = elim (Bool-cases (str_eq path p)) [
  | inl same ↦ absurd (ne ((eq_iff path p).0 same))
  | inr differs ↦ rw differs (switch-other cases other path none_of)
]

abbrev procedures : List String
procedures =
    say_hello_procedure ∷ greet_stream_procedure ∷ greet_client_stream_procedure
    ∷ greet_bidi_stream_procedure ∷ send_file_procedure ∷ receive_file_procedure
    ∷ get_download_url_procedure ∷ collaborate_procedure ∷ []

-- A path that is none of the eight procedures, letter for letter, is answered by each of the three
-- handlers with `http.NotFound`, also where it lies under the pattern of the service.
other-not_found :
    (C : Connect) (g : GreetServiceHandler C) (f : FileServiceHandler C) (c : CanvaServiceHandler C)
    (path : String)
    → All (λ p. path ≢ p) procedures
    → ((new_greet_service_handler C g).1 path ≡ C.not_found)
      × ((new_file_service_handler C f).1 path ≡ C.not_found)
      × ((new_canva_service_handler C c).1 path ≡ C.not_found)
unfolding new_greet_service_handler new_file_service_handler new_canva_service_handler
other-not_found C g f c path (a, (b, (d, (e, (x, (y, (z, (w, u)))))))) = (
  switch-other (greet_cases C g) C.not_found path (a, (b, (d, (e, u)))),
  switch-other (file_cases C f) C.not_found path (x, (y, (z, u))),
  switch-other (canva_cases C c) C.not_found path (w, u),
)
