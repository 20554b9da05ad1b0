-- ===== src/SplitProxy/Handler/Dials.antt =====
-- The connections that `SplitHttpProxy.handle` opens, by the route of the target.
use proxy_gateway_console_pu.SplitProxy.Request.{Reads, recv_headers}
use proxy_gateway_console_pu.Prelude.{
  ℕ, Bool-cases, if◌then◌else◌, ◌≡◌, List, [], ◌∷◌, String, refl, Bool, true, false, ◌==◌, ◌∙◌, ◌⊎◌,
  inl, inr, ℤ,
}
use proxy_gateway_console_pu.Relay.Quiet.{handled-Same, IsQuiet-lift, loud_of, IsQuiet}
use proxy_gateway_console_pu.SplitProxy.Handler.{
  route, fail, handle_connect, handle_http, with_parts, serve, connect_by, http_by, World, allowed,
  handle,
}
use proxy_gateway_console_pu.SplitProxy.Cache.{Entries, route as cached_route}
use proxy_gateway_console_pu.SplitProxy.Route.{Decision}
use proxy_gateway_console_pu.Outcome.{Outcome, ok, raised, Exception}
use proxy_gateway_console_pu.Relay.{
  ◌>>=◌, Io, Conn, Effect, dial_direct, dial_upstream, to_client, perform, lift, return_io, resume,
  except, if_os_error,
}
use proxy_gateway_console_pu.SplitProxy.Handler.Once.{
  is_dial, dials, AtMostOne, carry, Once, Once-if, Once-dial, calls, answered-IsQuiet,
  pass_on-IsQuiet, not_proxy, not_direct,
}

abbrev pub decided : World → Entries → String → Outcome Decision
decided w entries host =
    (cached_route w.addresses w.cn_networks w.force_direct w.force_proxy w.now w.resolver host
      entries).0

-- A connection that the route of some host, by the cache there was, allows.
unfoldable pub FollowsRoute : World → Entries → Effect → Type 0
FollowsRoute w entries e =
    (host : String) × (port : ℤ) × (d : Decision) × (decided w entries host ≡ ok d)
    × (((e ≡ dial_direct host port) × ((d.mode == "proxy") ≡ false))
        ⊎ ((e ≡ dial_upstream) × ((d.mode == "direct") ≡ false)))

-- What every part of a CONNECT or of another request makes.
module _ (w : World) (entries : Entries) where
  abbrev Allowed : Effect → Type 0
  Allowed e = FollowsRoute w entries e

  connect_by-Once :
      (d : Decision) (raw host : String) (port : ℤ)
      → decided w entries host ≡ ok d
      → Once Allowed (connect_by w d raw host port)
  unfolding connect_by is_dial FollowsRoute
  connect_by-Once d raw host port is =
      Once-if Allowed _ _ _
        (λ direct.
          Once-dial Allowed w.answer (dial_direct host port) _
            (host, port, d, is, inl (refl, not_proxy d.mode direct)) refl (search calls))
        (λ other.
          Once-dial Allowed w.answer dial_upstream _ (host, port, d, is, inr (refl, other)) refl
            (search (calls, answered-IsQuiet)))

  http_by-Once :
      (d : Decision) (raw method target version : String) (headers : List (String × String))
      (body host : String) (port : ℤ) (path : String)
      → decided w entries host ≡ ok d
      → Once Allowed (http_by w d raw method target version headers body host port path)
  unfolding http_by is_dial FollowsRoute
  http_by-Once d raw method target version headers body host port path is =
      Once-if Allowed _ _ _
        (λ proxy.
          Once-dial Allowed w.answer dial_upstream _
            (host, port, d, is, inr (refl, not_direct d.mode proxy)) refl (search calls))
        (λ other.
          Once-dial Allowed w.answer (dial_direct host port) _
            (host, port, d, is, inl (refl, other)) refl (search (calls, pass_on-IsQuiet)))

  record From {A : Type 0} (m : Io Entries A) : Type 0 where
    from :
        (s : Conn Entries)
        → s.memory ≡ entries
        → dials s.trace ≡ []
        → AtMostOne Allowed (m s).1.trace

  From-quiet : {A : Type 0} (m : Io Entries A) → IsQuiet is_dial m → From m
  From-quiet m q = record { from = λ s same none_yet. inl ((q.at s).0 ∙ none_yet) }

  resumed-From :
      {A B : Type 0} (r : Outcome B) (s : Conn Entries) (f : B → Io Entries A)
      → ((b : B) → From (f b))
      → s.memory ≡ entries
      → dials s.trace ≡ []
      → AtMostOne Allowed (resume r f s).1.trace
  resumed-From (ok b) s f of same none_yet = (of b).from s same none_yet
  resumed-From (raised e) s f of same none_yet = inl none_yet

  From-bind :
      {A B : Type 0} (m : Io Entries B) (f : B → Io Entries A)
      → IsQuiet is_dial m
      → ((b : B) → From (f b))
      → From (m >>= f)
  From-bind m f q of = record {
    from = λ s same none_yet.
        resumed-From (m s).0 (m s).1 f of ((q.at s).1 ∙ same) ((q.at s).0 ∙ none_yet);
  }

  From-if :
      {A : Type 0} (b : Bool) (m n : Io Entries A) → From m → From n → From (if b then m else n)
  From-if true m n om on = om
  From-if false m n om on = on

  decided_next :
      (host : String) (r : Outcome Decision) (s : Conn Entries)
      (f : Decision → Io Entries (Unit {0}))
      → ((d : Decision) → (r ≡ ok d) → Once Allowed (f d))
      → dials s.trace ≡ []
      → AtMostOne Allowed (resume r f s).1.trace
  decided_next host (ok d) s f of none_yet = (of d refl).at s none_yet
  decided_next host (raised e) s f of none_yet = inl none_yet

  From-route :
      (host : String) (f : Decision → Io Entries (Unit {0}))
      → ((d : Decision) → decided w entries host ≡ ok d → Once Allowed (f d))
      → From (route w host >>= f)
  unfolding route
  From-route host f of = record {
    from = λ s same none_yet. rw same (decided_next host (decided w entries host) _ f of none_yet);
  }

  handle_connect-From : (raw target : String) → From (handle_connect w raw target)
  unfolding handle_connect
  handle_connect-From raw target =
      From-bind _ _ (IsQuiet-lift is_dial _)
        (λ at. From-route at.0 _ (λ d is. connect_by-Once d raw at.0 at.1 is))

  told : (text : String) → From (perform w.answer (to_client text))
  told text = From-quiet _ (search calls)

  handle_http-From :
      (raw method target version : String) (headers : List (String × String)) (body : String)
      → From (handle_http w raw method target version headers body)
  unfolding handle_http
  handle_http-From raw method target version headers body =
      From-bind (lift (w.urlsplit target)) _ (IsQuiet-lift is_dial _) (λ url.
        From-if _ _ _
          (From-bind _ _ (IsQuiet-lift is_dial _) (λ (p : (String × ℤ) × String).
            From-route p.0.0 _
              (λ d is. http_by-Once d raw method target version headers body p.0.0 p.0.1 p.1 is)))
          (From-if _ _ _ (told _) (
            From-bind _ _ (IsQuiet-lift is_dial _) (λ (p : (String × ℤ) × String).
              From-route p.0.0 _ (λ d is.
                http_by-Once d raw method target version headers body p.0.0 p.0.1 p.1 is)))))

  with_parts-From :
      (parts : List String) (raw : String) (headers : List (String × String)) (body : String)
      → From (with_parts w parts raw headers body)
  with_parts-From [] raw headers body = From-quiet _ (search calls)
  with_parts-From (a ∷ []) raw headers body = From-quiet _ (search calls)
  with_parts-From (a ∷ b ∷ []) raw headers body = From-quiet _ (search calls)
  with_parts-From (a ∷ b ∷ c ∷ []) raw headers body =
      From-if _ _ _ (handle_connect-From raw b) (handle_http-From raw a b c headers body)
  with_parts-From (a ∷ b ∷ c ∷ d ∷ rest) raw headers body = From-quiet _ (search calls)

  nothing_said : From {A = Unit {0}} (return_io tt)
  nothing_said = From-quiet _ (search calls)

  serve-From : From (serve w)
  unfolding serve
  serve-From =
      From-bind (lift (recv_headers w.client_chunks)) _ (IsQuiet-lift is_dial _)
        (λ (r : String × Reads). From-if (r.0 == "") _ _ nothing_said (with_parts-From _ r.0 _ _))

  fail-IsQuiet : (code : ℕ) (message : String) → IsQuiet is_dial (fail w code message)
  unfolding fail
  fail-IsQuiet code message = search calls

  if_os_error-IsQuiet : (e : Exception) → IsQuiet is_dial {M = Entries} (if_os_error tt e)
  if_os_error-IsQuiet e = search calls

  abbrev start : Conn Entries
  start = record { trace = []; memory = entries }

  -- Whatever a client sends and the network answers, one request opens at most one connection. It is a
  -- direct one only to a host whose route, by the cache that the request found, is not "proxy"; it goes
  -- to the upstream proxy only if the route is not "direct".
  pub handle-AtMostOne : AtMostOne (FollowsRoute w entries) (handle w start).1.trace
  unfolding handle except loud_of
  handle-AtMostOne = elim (Bool-cases (allowed w)) [
    | inl a ↦ rw a (
        carry Allowed (serve w start).1.trace _
          (handled-Same is_dial (serve w start).0 _ (serve w start).1
            (λ e. search (calls, fail-IsQuiet, if_os_error-IsQuiet))).0
          (serve-From.from start refl refl))
    | inr a ↦ rw a ((told _).from start refl refl)
  ]
