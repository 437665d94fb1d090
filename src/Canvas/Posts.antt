-- ===== src/Canvas/Posts.antt =====
-- Draw events with the calls that they came from, for what runs of canvaservice/handler/handler.go add
-- and send.
use fawa.Common.{
  ℕ, ◌≡◌, refl, sym, ap, ◌∙◌, List, [], ◌∷◌, ◌++◌, append_assoc, arith, ◌==◌, if◌then◌else◌,
}
use fawa.Canvas.{DrawEvent}

-- Events with the calls that they came from.
abbrev pub Posts : Type 0
Posts = List (ℕ × DrawEvent)

abbrev pub posts : ℕ → List DrawEvent → Posts
posts i [] = []
posts i (e ∷ es) = (i, e) ∷ posts i es

abbrev pub events : Posts → List DrawEvent
events [] = []
events ((i, e) ∷ rest) = e ∷ events rest

-- Those of one call.
abbrev pub events_of : ℕ → Posts → List DrawEvent
events_of i [] = []
events_of i ((j, e) ∷ rest) = let others = events_of i rest in if j == i then e ∷ others else others

pub events-append : (xs ys : Posts) → events (xs ++ ys) ≡ events xs ++ events ys
events-append [] ys = refl
events-append ((i, e) ∷ xs) ys = ap (λ l. e ∷ l) (events-append xs ys)

pub events-posts : (i : ℕ) (es : List DrawEvent) → events (posts i es) ≡ es
events-posts i [] = refl
events-posts i (e ∷ es) = ap (λ l. e ∷ l) (events-posts i es)

pub events_of-append :
    (i : ℕ) (xs ys : Posts) → events_of i (xs ++ ys) ≡ events_of i xs ++ events_of i ys
events_of-append i [] ys = refl
events_of-append i ((j, e) ∷ xs) ys = ground (arith, events_of-append i xs ys)

pub events_of-posts :
    (i j : ℕ) (es : List DrawEvent) → events_of i (posts j es) ≡ (if j == i then es else [])
events_of-posts i j [] = ground arith
events_of-posts i j (e ∷ es) = ground (arith, events_of-posts i j es)

-- A run and one more step, for what is added to and for what a call holds.
pub chained :
    (h k l : List DrawEvent) (xs ys : Posts)
    → k ≡ h ++ events xs
    → l ≡ k ++ events ys
    → l ≡ h ++ events (xs ++ ys)
chained h k l xs ys e f =
    f
    ∙ (ap (λ m. m ++ events ys) e
        ∙ (append_assoc h (events xs) (events ys) ∙ ap (λ m. h ++ m) (sym (events-append xs ys))))

pub held_on :
    {A : Type 0} (g h k xs ys zs ws : List A)
    → g ++ xs ≡ ys ++ h
    → h ++ zs ≡ ws ++ k
    → g ++ (xs ++ zs) ≡ (ys ++ ws) ++ k
held_on g h k xs ys zs ws e f =
    sym (append_assoc g xs zs)
    ∙ (ap (λ l. l ++ zs) e
        ∙ (append_assoc ys h zs ∙ (ap (λ l. ys ++ l) f ∙ sym (append_assoc ys ws k))))
