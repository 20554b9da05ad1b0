-- ===== src/Tests/Split.antt =====
-- The theorems on the split proxy and on the tunnel, at concrete data.
use proxy_gateway_console_pu.SplitProxy.Handler.{http_by, World, handle}
use proxy_gateway_console_pu.Relay.{
  to_remote, routed, dial_direct, Effect, Conn, Round, client_side, remote_side, tunnel,
}
use proxy_gateway_console_pu.Prelude.{
  show_ℤ, ◌++◌, ◌<>◌, pos, split_at, read_digits, show_ℕ, ends_with, ◌≢◌, ◌+◌, strip, lower_char,
  lower, ℕ, ◌==◌, if◌then◌else◌, ◌≡◌, refl, ◌⊎◌, ◌↔◌, ◌<◌, [], ◌∷◌, List, String, true, false, none,
}
use proxy_gateway_console_pu.SplitProxy.Request.Header.{Ended, recv_headers-IsRead}
use proxy_gateway_console_pu.SplitProxy.Handler.Once.{AtMostOne}
use proxy_gateway_console_pu.LanBridge.Closing.{relay-IsClosed, closes, IsClosed}
use proxy_gateway_console_pu.LanBridge.{relay, Relayed}
use proxy_gateway_console_pu.SplitProxy.Address.{
  octet, in_any, private_nets, in_net, is_direct_ip, ip_address, Addresses, net4, net, quad,
}
use proxy_gateway_console_pu.SplitProxy.Route.{
  judge, parse_all, resolved_route, host_matches, Decision, decision, choose_route, normalized,
}
use proxy_gateway_console_pu.SplitProxy.Cache.{
  store, find, Entries, look, Shared, Reach, miss, decide, start, next, cache_ttl,
}
use proxy_gateway_console_pu.Outcome.{Outcome, ok, raised, value_error, os_error}
use proxy_gateway_console_pu.Relay.Order.{tunnel-Passed}
use proxy_gateway_console_pu.Relay.Passed.{PassedWhy}
use proxy_gateway_console_pu.SplitProxy.Route.Direct.{SentDirect, choose_route_direct_iff}
use proxy_gateway_console_pu.SplitProxy.Cache.Fresh.{Reach-fresh}
use proxy_gateway_console_pu.SplitProxy.Request.{recv_headers}
use proxy_gateway_console_pu.SplitProxy.Handler.Dials.{FollowsRoute, handle-AtMostOne}
use proxy_gateway_console_pu.SplitProxy.Handler.Forwarded.{
  Headers, IsOutbound, Starts, direct_head, http_by-Starts,
}

abbrev library : Addresses
library = record { is_ipv6 = λ text. false; ip_network = λ text. raised (value_error text) }

-- example.org is local, all else is unknown.
abbrev resolver : String → Outcome (List String)
resolver host =
    if host == "example.org"
    then ok ("10.0.0.7" ∷ [])
    else raised (os_error "gaierror" none "unknown")

abbrev rounds : List Round
rounds =
    record { errored = false; readable = (client_side, ok "abc") ∷ (remote_side, ok "de") ∷ [] }
    ∷ record { errored = false; readable = (remote_side, ok "") ∷ (client_side, ok "f") ∷ [] }
    ∷ []

abbrev world : World
world = record {
  allow_nets = net4 (net (quad 192 168 0 0) 16) ∷ [];
  peer_in = λ n. true;
  cn_networks = [];
  force_direct = [];
  force_proxy = "google.com" ∷ [];
  now = 5;
  resolver = resolver;
  addresses = library;
  answer = λ effects e. ok tt;
  client_chunks = ok "CONNECT example.org:8443 HTTP/1.1\r\n" ∷ ok "\r\n" ∷ [];
  upstream_chunks = [];
  remote_reads = [];
  rounds = rounds;
  urlsplit = λ t. raised (value_error "not used");
  utf8_length = λ t. 7;
  str_of = λ e. "error";
}

abbrev fresh_conn : Conn Entries
fresh_conn = record { trace = []; memory = [] }

handle-AtMostOne_example :
    AtMostOne (FollowsRoute world []) (handle world (record { trace = []; memory = [] })).1.trace
handle-AtMostOne_example = handle-AtMostOne world []

abbrev sample_headers : List (String × String)
sample_headers =
    ("Host", "a")
    ∷ ("Proxy-Connection", "keep-alive")
    ∷ ("Connection", "keep-alive")
    ∷ ("Accept", "*/*")
    ∷ []

abbrev direct_decision : Decision
direct_decision = decision "direct" "private" []

http_by-Starts_example :
    (sent : Headers) × IsOutbound sample_headers sent
    × Starts
        ((([] ++ dial_direct "a" (pos 80) ∷ [])
            ++ routed "GET" ("a" <> ":" <> show_ℤ (pos 80) <> "/x") direct_decision.mode ∷ [])
          ++ to_remote (direct_head "GET" "/x" "HTTP/1.1" sent <> "") ∷ [])
        (http_by world direct_decision "" "GET" "http://a/x" "HTTP/1.1" sample_headers "" "a"
          (pos 80)
          "/x"
          fresh_conn).1.trace
http_by-Starts_example =
    http_by-Starts world direct_decision "" "GET" "http://a/x" "HTTP/1.1" sample_headers "" "a"
      (pos 80) "/x" fresh_conn refl refl

tunnel-Passed_example :
    PassedWhy
      (λ effects e. ok tt)
      rounds
      []
      (tunnel (λ effects e. ok tt) rounds (record { trace = []; memory = tt })).1.trace
tunnel-Passed_example =
    tunnel-Passed (λ effects e. ok tt) rounds (record { trace = []; memory = tt })

choose_route_direct_iff_example :
    ((d : Decision) × (choose_route library [] [] ("google.com" ∷ []) resolver "example.org" ≡ ok d)
      × (d.mode ≡ "direct"))
    ↔ SentDirect library [] [] ("google.com" ∷ []) resolver "example.org"
choose_route_direct_iff_example =
    choose_route_direct_iff library [] [] ("google.com" ∷ []) resolver "example.org"

abbrev chunks : List (Outcome String)
chunks = ok "GET / HTTP/1.1\r\n" ∷ ok "Host: a\r\n\r\nbody" ∷ ok "more" ∷ []

recv_headers-IsRead_example : Ended "" chunks (recv_headers chunks)
recv_headers-IsRead_example = recv_headers-IsRead chunks

abbrev answers : ℕ → ℕ → String → Outcome (List String)
answers at who host = resolver host

abbrev cached : Decision
cached = decision "direct" "private" ("10.0.0.7" ∷ [])

abbrev shared : Shared
shared = record { cache = ("example.org", (5, cached)) ∷ []; pending = [] }

-- One request that found nothing, and its decision.
shared-Reach : Reach library [] [] ("google.com" ∷ []) answers shared
unfolding normalized look find store choose_route host_matches resolved_route parse_all judge
    ip_address is_direct_ip lower lower_char strip ends_with split_at octet read_digits show_ℕ
    in_any private_nets in_net
shared-Reach =
    next (next start (miss _ 5 "example.org" refl)) (decide _ 0 5 0 "example.org" cached refl refl)

Reach-fresh_example :
    (at : ℕ) × (who : ℕ) × (9 < at + cache_ttl)
    × (choose_route library [] [] ("google.com" ∷ []) (answers at who) (normalized "example.org")
        ≡ ok cached)
    × ((cached.mode ≢ "direct")
        ⊎ SentDirect library [] [] ("google.com" ∷ []) (answers at who) (normalized "example.org"))
unfolding normalized look find lower lower_char strip
Reach-fresh_example =
    Reach-fresh library [] [] ("google.com" ∷ []) answers shared 9 "example.org" cached shared-Reach
      refl

abbrev bridge_answer : List Effect → Effect → Outcome (Unit {0})
bridge_answer effects e = ok tt

abbrev bridged : Outcome Relayed × Conn (Unit {0})
bridged =
    relay bridge_answer (ok tt) (ok tt) "127.0.0.1" (pos 18122)
      (((client_side, ok "a") ∷ (remote_side, ok "") ∷ []) ∷ [])
      (record { trace = []; memory = tt })

relay-IsClosed_example :
    IsClosed
      (ok tt)
      (bridge_answer [] (dial_direct "127.0.0.1" (pos 18122)))
      (ok tt)
      bridged.0
      (closes bridged.1)
relay-IsClosed_example =
    relay-IsClosed bridge_answer (ok tt) (ok tt) "127.0.0.1" (pos 18122)
      (((client_side, ok "a") ∷ (remote_side, ok "") ∷ []) ∷ []) (λ e h. cc)
