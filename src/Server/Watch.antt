-- ===== src/Server/Watch.antt =====
-- What a connection waits for in each of its states, between the events.
pub mod Transitions
pub mod Commands
pub mod Reading
pub mod Sending
pub mod Handler
use lightcache.Base.{
  Bool-cases, Option-cases, inl, inr, ℕ, ◌≡◌, ◌≢◌, ◌∙◌, ap, refl, sym, Bool, true, false, Option,
  none, some, List, arith, ◌==◌, if◌then◌else◌,
}
use lightcache.Base.Run.{
  Run, ok, fault, bad_free, ◌>>=◌, After, after_bind, after_any, after_if, after_ok, after_fault,
  after_option,
}
use lightcache.Protocol.{
  Conn, ConnState, read_header, read_key, read_data, conn_closed, cmd_received, send_header,
  send_data, read_extra, cmd_sent, Watch, unwatched, watch_read, watch_write, Code, Payload,
  nothing, own, cached, Request, Response,
}
use lightcache.Server.State.{
  Env, Server, Stats, place, set_conn, set_stats, set_request, load, load_in, set_in,
}
use lightcache.Server.Resources.{
  free_request, release_payload, free_response, init_resources, enter, event_set, disconnect_conn,
  enter_send_header, add_response, send_response, enter_read, set_conn_state,
}

abbrev pub expected : ConnState → Watch
expected read_header = watch_read
expected read_key = watch_read
expected read_data = watch_read
expected read_extra = watch_read
expected cmd_received = watch_read
expected send_header = watch_write
expected send_data = watch_write
expected cmd_sent = watch_write
expected conn_closed = unwatched

abbrev pub closed : ConnState → Bool
closed conn_closed = true
closed _ = false

-- A connection waits for what its state handles, and is free exactly when it is closed.
pub record IsWatched (conn : Conn) : Type 0 where
  pub watch : conn.watch ≡ expected conn.state
  pub free : conn.free ≡ closed conn.state

abbrev pub AllWatched : (ℕ → Conn) → Type 0
AllWatched conns = (d : ℕ) → IsWatched (conns d)

abbrev pub OthersWatched : (ℕ → Conn) → ℕ → Type 0
OthersWatched conns c = (d : ℕ) → d ≢ c → IsWatched (conns d)

-- The other connections are as they should be, and `c` waits for `w` and is free if `f` says so.
pub record IsSteady (conns : ℕ → Conn) (c : ℕ) (w : Watch) (f : Bool) : Type 0 where
  pub others : OthersWatched conns c
  pub in_use : (conns c).free ≡ f
  pub waits : (conns c).watch ≡ w

-- In the midst of an event on `c`: the connection is in use, and waits for `w`.
abbrev pub IsOpen : (ℕ → Conn) → ℕ → Watch → Type 0
IsOpen conns c w = IsSteady conns c w false

pub others-place :
    (conns : ℕ → Conn) (c : ℕ) (conn : Conn)
    → OthersWatched conns c
    → OthersWatched (place conns c conn) c
others-place conns c conn o d ne = let e : d == c ≡ false = ground arith in rw e (o d ne)

pub all-place :
    (conns : ℕ → Conn) (c : ℕ) (conn : Conn)
    → OthersWatched conns c
    → IsWatched conn
    → AllWatched (place conns c conn)
all-place conns c conn o k d = elim (Bool-cases (d == c)) [
  | inl e ↦ rw e k
  | inr e ↦ rw e (o d (ground arith))
]

-- A changed connection that still waits for `w` and is still free or in use.
pub place-IsSteady :
    (conns : ℕ → Conn) (c : ℕ) (w : Watch) (f : Bool) (conn : Conn)
    → OthersWatched conns c
    → conn.free ≡ f
    → conn.watch ≡ w
    → IsSteady (place conns c conn) c w f
place-IsSteady conns c w f conn o free watch = record {
  others = others-place conns c conn o;
  in_use = ground arith;
  waits = ground arith;
}

-- Between events, a connection that is not closed is open.
pub state-IsOpen :
    (conns : ℕ → Conn) (c : ℕ) (st : ConnState)
    → AllWatched conns
    → (conns c).state ≡ st
    → closed st ≡ false
    → IsOpen conns c (expected st)
state-IsOpen conns c st all e f = record {
  others = λ d ne. all d;
  in_use = (all c).free ∙ ap closed e ∙ f;
  waits = (all c).watch ∙ ap expected e;
}

module _ (env : Env) (c : ℕ) (w : Watch) (f : Bool) where
  open env use {Table}

  free_request-IsSteady :
      (s : Server Table)
      → IsSteady s.conns c w f
      → After (free_request env s c) λ s'. IsSteady s'.conns c w f
  unfolding free_request
  free_request-IsSteady s o = after_option (s.conns c).request _ _ (after_ok s o) (λ r.
      after_any (load s (some r)) _ (λ q.
        after_if q.can_free _ _
          (after_ok _ (place-IsSteady s.conns c w f _ o.others o.in_use o.waits)) (after_ok s o)))

  release_payload-IsSteady :
      (b : Bool) (p : Payload) (s : Server Table)
      → IsSteady s.conns c w f
      → After (release_payload env b p s) λ s'. IsSteady s'.conns c w f
  release_payload-IsSteady false p s o = after_ok s o
  release_payload-IsSteady true nothing s o = after_ok s o
  release_payload-IsSteady true (own bs) s o = after_ok s o
  release_payload-IsSteady true (cached r) s o = after_fault bad_free

  free_response-IsSteady :
      (s : Server Table)
      → IsSteady s.conns c w f
      → After (free_response env s c) λ s'. IsSteady s'.conns c w f
  unfolding free_response
  free_response-IsSteady s o =
      after_bind _ _ (release_payload-IsSteady (s.conns c).out.can_free (s.conns c).out.sdata s o)
        (λ s' o'. after_ok _ (place-IsSteady s'.conns c w f _ o'.others o'.in_use o'.waits))

  pub init_resources-IsSteady :
      (s : Server Table)
      → IsSteady s.conns c w f
      → After (init_resources env s c) λ r. IsSteady r.0.conns c w f
  unfolding init_resources
  init_resources-IsSteady s o = after_bind _ _ (free_request-IsSteady s o) λ s₁ o₁.
      after_bind _ _ (free_response-IsSteady s₁ o₁) λ s₂ o₂.
        after_if (env.alloc_ok s₂.allocs) _ _
          (after_ok _ (place-IsSteady s₂.conns c w f _ o₂.others o₂.in_use o₂.waits))
          (after_ok _ (place-IsSteady s₂.conns c w f _ o₂.others o₂.in_use o₂.waits))

  pub disconnect_conn-AllWatched :
      (s : Server Table)
      → IsSteady s.conns c w f
      → After (disconnect_conn env s c) λ s'. AllWatched s'.conns
  unfolding disconnect_conn
  disconnect_conn-AllWatched s o = after_bind _ _ (free_request-IsSteady s o) λ s₁ o₁.
      after_bind _ _ (free_response-IsSteady s₁ o₁) λ s₂ o₂. after_ok _ (
        all-place s₂.conns c
          (record (s₂.conns c) { free = true; watch = unwatched; state = conn_closed }) o₂.others
          (record { watch = refl; free = refl }))

module _ (env : Env) (c : ℕ) (w : Watch) where
  open env use {Table}

  pub add_response-AllWatched :
      (s : Server Table) (p : Payload) (n : ℕ) (code : Code)
      → IsOpen s.conns c w
      → After (add_response env s c p n code) λ s'. AllWatched s'.conns
  unfolding add_response
  add_response-AllWatched s p n code o = after_any (load_in s c) _ λ q. after_ok _ (
      all-place (place s.conns c _) c _ (others-place s.conns c _ o.others)
        (record { watch = refl; free = ground (arith, o.in_use) }))

  pub send_response-AllWatched :
      (s : Server Table) (code : Code)
      → IsOpen s.conns c w
      → After (send_response env s c code) λ s'. AllWatched s'.conns
  unfolding send_response
  send_response-AllWatched s code o = add_response-AllWatched s nothing 0 code o

  pub enter-IsOpen :
      (s : Server Table) (st : ConnState) → IsOpen s.conns c w → IsOpen (enter env s c st).conns c w
  enter-IsOpen s st o = place-IsSteady s.conns c w false _ o.others o.in_use o.waits

  pub enter-AllWatched :
      (s : Server Table) (st : ConnState)
      → IsOpen s.conns c w
      → expected st ≡ w
      → closed st ≡ false
      → AllWatched (enter env s c st).conns
  enter-AllWatched s st o e f =
      all-place s.conns c _ o.others (record { watch = o.waits ∙ sym e; free = o.in_use ∙ sym f })
