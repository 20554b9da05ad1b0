-- ===== src/Relay.antt =====
-- Connections of the proxies in runtime/proxy-stack: what a handler does, call by call, and the
-- `tunnel` that iphone_lan_split_proxy.py and phone_egress_http_proxy.py share.
pub mod Passed
pub mod Order
pub mod Quiet
pub mod Keeps
use proxy_gateway_console_pu.Prelude.{
  ◌++◌, Bool, true, false, ◌==◌, ◌||◌, if◌then◌else◌, [], ◌∷◌, List, String, ℤ,
}
use proxy_gateway_console_pu.Outcome.{Outcome, ok, raised, Exception, os_error}

-- The calls of a handler that reach a socket or the log.
pub data Effect : Type 0 where
  -- `open_direct`
  dial_direct : String → ℤ → Effect
  -- `open_upstream`
  dial_upstream : Effect
  -- `socket.socket`, `bind` and `connect`, by the address that is bound and the one connected to
  new_socket : Effect
  bind_source connect_to : String → Effect
  to_client to_remote : String → Effect
  close_remote close_client : Effect
  routed : String → String → String → Effect

-- What a handler changes: the calls so far, in order, and the memory its threads share.
pub record Conn (M : Type 0) : Type 0 where
  pub trace : List Effect
  pub memory : M

abbrev pub Io : Type 0 → Type 0 → Type 0
Io M A = Conn M → Outcome A × Conn M

-- except OSError
unfoldable pub is_os_error : Exception → Bool
is_os_error (os_error kind errno message) = true
is_os_error e = false

-- What the loop of `tunnel` does after one socket: it goes on, or the tunnel is over.
pub data Turn : Type 0 where
  go_on over : Turn

module _ {M : Type 0} where
  abbrev pub return_io : {A : Type 0} → A → Io M A
  return_io a s = (ok a, s)

  abbrev pub lift : {A : Type 0} → Outcome A → Io M A
  lift r s = (r, s)

  abbrev pub resume : {A B : Type 0} → Outcome A → (A → Io M B) → Io M B
  resume (ok a) f s = f a s
  resume (raised e) f s = (raised e, s)

  infixl 5 ◌>>=◌
  infixr 5 ◌>>◌
  abbrev pub ◌>>=◌ : {A B : Type 0} → Io M A → (A → Io M B) → Io M B
  (m >>= f) s = let (r, t) = m s in resume r f t

  abbrev pub ◌>>◌ : {B : Type 0} → Io M (Unit {0}) → Io M B → Io M B
  m >> k = m >>= λ _. k

  -- A call whose answer depends on all the calls before it.
  unfoldable pub perform : (List Effect → Effect → Outcome (Unit {0})) → Effect → Io M (Unit {0})
  perform answer e s = (answer s.trace e, record s { trace = s.trace ++ e ∷ [] })

  abbrev pub note : Effect → Io M (Unit {0})
  note e s = (ok tt, record s { trace = s.trace ++ e ∷ [] })

  abbrev pub handled : {A : Type 0} → Outcome A → (Exception → Io M A) → Io M A
  handled (ok a) handler s = (ok a, s)
  handled (raised e) handler s = handler e s

  -- try: … except Exception as error: …
  unfoldable pub except : {A : Type 0} → Io M A → (Exception → Io M A) → Io M A
  except m handler s = let (r, t) = m s in handled r handler t

  abbrev pub if_os_error : {A : Type 0} → A → Exception → Io M A
  if_os_error a e = if is_os_error e then return_io a else lift (raised e)

  -- `with remote:` closes it, whatever the block does.
  unfoldable pub with_remote : {A : Type 0} → Io M A → Io M A
  with_remote m s = let (r, t) = m s in (r, record t { trace = t.trace ++ close_remote ∷ [] })

module _ {M : Type 0} where
  abbrev pub unless_over : Io M Turn → Turn → Io M Turn
  unless_over rest over = return_io over
  unless_over rest go_on = rest

  abbrev pub until_over : Io M (Unit {0}) → Turn → Io M (Unit {0})
  until_over rest over = return_io tt
  until_over rest go_on = rest

pub data Side : Type 0 where
  client_side remote_side : Side

-- One answer of `select`: whether a socket is in error, and what each readable socket gives.
pub record Round : Type 0 where
  pub errored : Bool
  pub readable : List (Side × Outcome String)

-- `other.sendall(chunk)`
abbrev pub forward : Side × String → Effect
forward (client_side, chunk) = to_remote chunk
forward (remote_side, chunk) = to_client chunk

abbrev pub no_more : List (Side × Outcome String) → Bool
no_more [] = true
no_more (x ∷ xs) = false

module _ {M : Type 0} (answer : List Effect → Effect → Outcome (Unit {0})) where
  -- The body of the loop over the readable sockets.
  unfoldable pub serve_socket : Side × Outcome String → Io M Turn
  serve_socket (side, raised e) = if_os_error over e
  serve_socket (side, ok chunk) =
      if chunk == ""
      then return_io over
      else except (perform answer (forward (side, chunk)) >>= λ _. return_io go_on)
          (if_os_error over)

  unfoldable pub serve_round : List (Side × Outcome String) → Io M Turn
  serve_round [] = return_io go_on
  serve_round (x ∷ xs) = serve_socket x >>= unless_over (serve_round xs)

  -- `tunnel`, by what `select` answers. After the last answer nothing is readable any more.
  unfoldable pub tunnel : List Round → Io M (Unit {0})
  tunnel [] = return_io tt
  tunnel (round ∷ rounds) =
      let rest = tunnel rounds in
      if round.errored || no_more round.readable
      then return_io tt
      else serve_round round.readable >>= until_over rest
