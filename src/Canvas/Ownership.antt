-- ===== src/Canvas/Ownership.antt =====
-- canvaservice/handler/handler.go: who the clients of a session belong to, and how a step of a
-- call changes that.
use fawa.Common.{
  ℕ, ◌≤◌, String, eq_iff, ◌≡◌, ◌≢◌, refl, sym, subst, ◌∙◌, [], ◌∷◌, Option, none, some, arith,
  length, All, update, update-all, none-ne,
}
use fawa.Common.Dict
use fawa.Common.Dict.{Dict, NodupKeys}
use fawa.Canvas.{
  ConnType, SessionClient, CanvasSession, broadcast_capacity, Entry, answers, enters, add_client,
  remove_client,
}
use fawa.Canvas.System.{
  System, Conn, Pc, joined, copied, reading, adding, sending, touching, leaving, gone, Read,
  request, entry_pc, read_pc,
}

-- The session and the id under which a call stands among the clients of that session.
abbrev pub owner : Pc → Option (ℕ × String)
owner (joined c) = some (c.session, c.id)
owner (copied c events) = some (c.session, c.id)
owner (reading c) = some (c.session, c.id)
owner (adding c e) = some (c.session, c.id)
owner (sending c e) = some (c.session, c.id)
owner (touching c) = some (c.session, c.id)
owner (leaving c) = some (c.session, c.id)
owner _ = none

-- A client of session `p` belongs to a live call of that session, under the id of that call.
abbrev pub Owned : (ℕ → Pc) → ℕ → String × SessionClient → Type 0
Owned pc p (k, cl) = owner (pc cl.call) ≡ some (p, k)

abbrev pub IsStamped : Pc → Type 0
IsStamped (adding c e) = e.client_id ≡ c.id
IsStamped (sending c e) = e.client_id ≡ c.id
IsStamped _ = Unit {0}

-- What holds of each session.
pub record IsSound (pc : ℕ → Pc) (p : ℕ) (q : CanvasSession) : Type 0 where
  pub within : length q.broadcast ≤ broadcast_capacity
  pub unique : NodupKeys q.clients
  pub owned : All (Owned pc p) q.clients

pub record IsConsistent (s : System) : Type 0 where
  pub keys : NodupKeys s.sessions
  pub sound : (p : ℕ) → IsSound s.pc p (s.heap p)
  pub stamped : (i : ℕ) → IsStamped (s.pc i)

Owned-update :
    (pc : ℕ → Pc) (i p : ℕ) (q : Pc) (m : Dict SessionClient)
    → owner (pc i) ≡ owner q
    → All (Owned pc p) m
    → All (Owned (update pc i q) p) m
Owned-update pc i p q [] same h = tt
Owned-update pc i p q ((k, cl) ∷ m) same h = ground (arith, Owned-update pc i p q m same h.1)

-- A call that is no client, or is a client of another session, owns no entry.
Owned-update_free :
    (pc : ℕ → Pc) (i p : ℕ) (q : Pc) (m : Dict SessionClient)
    → ((k : String) → owner (pc i) ≢ some (p, k))
    → All (Owned pc p) m
    → All (Owned (update pc i q) p) m
Owned-update_free pc i p q [] free h = tt
Owned-update_free pc i p q ((k, cl) ∷ m) free h =
    ground (arith, free k, Owned-update_free pc i p q m free h.1)

Owned-erase :
    (pc : ℕ → Pc) (i p : ℕ) (id : String) (q : Pc) (m : Dict SessionClient)
    → owner (pc i) ≡ some (p, id)
    → All (Owned pc p) m
    → All (Owned (update pc i q) p) (Dict.erase id m)
unfolding Dict.erase
Owned-erase pc i p id q [] own h = tt
Owned-erase pc i p id q ((k, cl) ∷ m) own h =
    ground (arith, eq_iff k id, Owned-erase pc i p id q m own h.1)

update-IsStamped :
    (pc : ℕ → Pc) (i : ℕ) (q : Pc)
    → IsStamped q
    → ((j : ℕ) → IsStamped (pc j))
    → (j : ℕ) → IsStamped (update pc i q j)
update-IsStamped pc i q st all = update-all (λ _. IsStamped) pc i q st (λ j _. all j)

pub read_pc-IsStamped : (c : Conn) (r : Read) → IsStamped (read_pc c r)
unfolding read_pc
read_pc-IsStamped c (request (some e)) = refl
read_pc-IsStamped c _ = tt

pub owner-read_pc : (c : Conn) (r : Read) → owner (read_pc c r) ≡ some (c.session, c.id)
unfolding read_pc
owner-read_pc c (request (some e)) = refl
owner-read_pc c _ = refl

pub entry_pc-IsStamped : (kind : ConnType) (e : Entry) → IsStamped (entry_pc kind e)
unfolding entry_pc
entry_pc-IsStamped kind (answers r) = tt
entry_pc-IsStamped kind (enters p) = tt

pub owner-entry_pc : (kind : ConnType) (e : Entry) → owner (entry_pc kind e) ≡ none
unfolding entry_pc
owner-entry_pc kind (answers r) = refl
owner-entry_pc kind (enters p) = refl

-- A step of a call that keeps its place among the clients.
IsSound-update :
    (s : System) (i : ℕ) (q : Pc)
    → owner (s.pc i) ≡ owner q
    → IsConsistent s
    → (p : ℕ) → IsSound (update s.pc i q) p (s.heap p)
IsSound-update s i q same v p = record {
  within = (v.sound p).within;
  unique = (v.sound p).unique;
  owned = Owned-update s.pc i p q (s.heap p).clients same (v.sound p).owned;
}

-- A step that changes session `p` and moves call `i` to place `q`.
pub session-IsConsistent :
    (s : System) (i : ℕ) (q : Pc) (p : ℕ) (new : CanvasSession)
    → IsSound (update s.pc i q) p new
    → ((r : ℕ) → p ≢ r → IsSound (update s.pc i q) r (s.heap r))
    → IsStamped q
    → IsConsistent s
    → IsConsistent (record s {
      handler = record s.handler { heap = update s.heap p new };
      pc = update s.pc i q;
    })
session-IsConsistent s i q p new here' others st v = record {
  keys = v.keys;
  sound = update-all (IsSound (update s.pc i q)) s.heap p new here' others;
  stamped = update-IsStamped s.pc i q st v.stamped;
}

-- The same where the call keeps its place among the clients, and the clients stay.
pub kept-IsConsistent :
    (s : System) (i : ℕ) (q : Pc) (p : ℕ) (new : CanvasSession)
    → owner (s.pc i) ≡ owner q
    → length new.broadcast ≤ broadcast_capacity
    → new.clients ≡ (s.heap p).clients
    → IsStamped q
    → IsConsistent s
    → IsConsistent (record s {
      handler = record s.handler { heap = update s.heap p new };
      pc = update s.pc i q;
    })
kept-IsConsistent s i q p new same le cls st v =
    let old = IsSound-update s i q same v in
    session-IsConsistent s i q p new
      (record {
        within = le;
        unique = subst NodupKeys (sym cls) (old p).unique;
        owned = subst (All (Owned (update s.pc i q) p)) (sym cls) (old p).owned;
      })
      (λ r _. old r) st v

-- The same where no session changes.
pub moved-IsConsistent :
    (s : System) (i : ℕ) (q : Pc)
    → owner (s.pc i) ≡ owner q
    → IsStamped q
    → IsConsistent s
    → IsConsistent (record s { pc = update s.pc i q })
moved-IsConsistent s i q same st v = record {
  keys = v.keys;
  sound = IsSound-update s i q same v;
  stamped = update-IsStamped s.pc i q st v.stamped;
}

-- A call of no client, or one that stays a client of another session, does not bear on session `r`.
pub apart-IsSound :
    (s : System) (i : ℕ) (q : Pc) (r : ℕ)
    → ((k : String) → owner (s.pc i) ≢ some (r, k))
    → IsConsistent s
    → IsSound (update s.pc i q) r (s.heap r)
apart-IsSound s i q r free v = record {
  within = (v.sound r).within;
  unique = (v.sound r).unique;
  owned = Owned-update_free s.pc i r q (s.heap r).clients free (v.sound r).owned;
}

pub joined-IsSound :
    (s : System) (i : ℕ) (kind : ConnType) (p : ℕ) (id : String)
    → owner (s.pc i) ≡ none
    → IsConsistent s
    → IsSound
        (update s.pc i (joined (record { conn_type = kind; session = p; id = id })))
        p
        (add_client (record { id = id; conn_type = kind; call = i }) (s.heap p))
unfolding add_client
joined-IsSound s i kind p id free v =
    let q = joined (record { conn_type = kind; session = p; id = id }) in
    let old = apart-IsSound s i q p (λ k e. none-ne (sym free ∙ e)) v in
    record {
      within = old.within;
      unique = Dict.insert-NodupKeys id _ (s.heap p).clients old.unique;
      owned =
          Dict.insert-All (Owned (update s.pc i q) p) id _ (s.heap p).clients (ground arith)
            old.owned;
    }

pub left-IsSound :
    (s : System) (i p : ℕ) (id : String)
    → owner (s.pc i) ≡ some (p, id)
    → IsConsistent s
    → IsSound (update s.pc i gone) p (remove_client id (s.heap p))
unfolding remove_client
left-IsSound s i p id own v = record {
  within = (v.sound p).within;
  unique = Dict.erase-NodupKeys id (s.heap p).clients (v.sound p).unique;
  owned = Owned-erase s.pc i p id gone (s.heap p).clients own (v.sound p).owned;
}
