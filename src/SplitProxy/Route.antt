-- ===== src/SplitProxy/Route.antt =====
-- `choose_route` of runtime/proxy-stack/iphone_lan_split_proxy.py, and what it calls.
pub mod Direct
use proxy_gateway_console_pu.Prelude.{
  refl, false, true, ◌≡◌, map, ◌||◌, ◌++◌, ends_with, none, ◌=?◌, is_space, ◌==◌, ◌<>◌, lower_char,
  some, code, lower, starts_with, not, any, all, Bool, strip, if◌then◌else◌, select, [], ◌∷◌,
  String, Char, List, split_at,
}
use proxy_gateway_console_pu.SessionStore.Redact.{drop_str}
use proxy_gateway_console_pu.Outcome.{os_error, value_error, ok, ◌>>=◌, raised, Outcome, Exception}
use proxy_gateway_console_pu.SplitProxy.Address.{
  Ip, v4, v6, Net, Addresses, ip_address, is_direct_ip, show_ip,
}

-- RouteDecision
pub record Decision : Type 0 where
  pub mode : String
  pub reason : String
  pub ips : List String

abbrev pub is_dot : Char → Bool
is_dot c = code c =? b'.'

-- host.lower().strip(".")
unfoldable pub normalized : String → String
normalized host = strip is_dot (lower host)

-- item[2:] where the item starts with "*."
abbrev pub no_star : String → String
no_star item = if starts_with item "*." then drop_str 2 item else item

unfoldable pub pattern_of : String → String
pattern_of item = no_star (strip is_dot (lower (strip is_space item)))

unfoldable pub parse_patterns : String → List String
parse_patterns value = select (λ p. not (p == "")) (map pattern_of (split_at b',' value))

unfoldable pub host_matches : String → List String → Bool
host_matches host patterns =
    let h = normalized host in any (λ p. h == p || ends_with h ("." <> p)) patterns

abbrev pub decision : String → String → List String → Decision
decision mode reason ips = record { mode = mode; reason = reason; ips = ips }

-- `if ip not in ips: ips.append(ip)`
unfoldable pub unique : List String → List String → List String
unique seen [] = seen
unique seen (ip ∷ rest) = unique (if any (λ s. s == ip) seen then seen else seen ++ ip ∷ []) rest

-- `resolve_ipv4`, by the addresses that `getaddrinfo` answers
unfoldable pub resolve_ipv4 : (String → Outcome (List String)) → String → Outcome (List String)
resolve_ipv4 getaddrinfo host = do answers ← getaddrinfo host; ok (unique [] answers)

abbrev pub no_address : String → Exception
no_address text = value_error ("'" <> text <> "' does not appear to be an IPv4 or IPv6 address")

module _ (a : Addresses) (cn_networks : List Net) where
  -- A target that is an address itself.
  unfoldable pub literal_route : Ip → Decision
  literal_route v6 = decision "proxy" "non-ipv4" []
  literal_route (v4 n) =
      let (direct, reason) = is_direct_ip cn_networks n in
      decision (if direct then "direct" else "proxy") reason (show_ip n ∷ [])

  unfoldable pub parse_all : List String → Outcome (List Ip)
  parse_all [] = ok []
  parse_all (text ∷ texts) = do
    ip ← elim (ip_address a text) [ some ip ↦ ok ip | none ↦ raised (no_address text) ]
    ips ← parse_all texts
    ok (ip ∷ ips)

  -- The loop over the parsed addresses, with the reasons so far.
  unfoldable pub judge : List String → List Ip → List String → Decision
  judge ips [] reasons =
      decision "direct" (if all (λ r. r == "private") reasons then "private" else "cn-ip") ips
  judge ips (v6 ∷ rest) reasons = decision "proxy" "non-ipv4" ips
  judge ips (v4 n ∷ rest) reasons =
      let (direct, reason) = is_direct_ip cn_networks n in
      let accepted = judge ips rest (reasons ++ reason ∷ []) in
      if direct then accepted else decision "proxy" reason ips

  unfoldable pub resolved_route : Outcome (List String) → Outcome Decision
  resolved_route (raised (os_error kind errno message)) =
      ok (decision "proxy" ("dns-failed:" <> kind) [])
  resolved_route (raised e) = raised e
  resolved_route (ok []) = ok (decision "proxy" "dns-empty" [])
  resolved_route (ok (ip ∷ ips)) = do parsed ← parse_all (ip ∷ ips); ok (judge (ip ∷ ips) parsed [])

  module _ (force_direct force_proxy : List String) where
    unfoldable pub choose_route : (String → Outcome (List String)) → String → Outcome Decision
    choose_route resolver host =
        let name = normalized host in
        if host_matches name force_proxy
        then ok (decision "proxy" "force-proxy" [])
        else if host_matches name force_direct
        then ok (decision "direct" "force-direct" [])
        else elim (ip_address a name) [
          | some ip ↦ ok (literal_route ip)
          | none ↦ resolved_route (resolver name)
        ]

route_examples :
    (normalized ".Example.ORG." ≡ "example.org")
    × (parse_patterns " *.Google.com, ,youtube.com." ≡ "google.com" ∷ "youtube.com" ∷ [])
    × (host_matches "www.google.com" ("google.com" ∷ []) ≡ true)
    × (host_matches "notgoogle.com" ("google.com" ∷ []) ≡ false)
    × (unique [] ("a" ∷ "b" ∷ "a" ∷ []) ≡ "a" ∷ "b" ∷ [])
unfolding normalized parse_patterns pattern_of split_at host_matches unique strip lower lower_char
    ends_with drop_str
route_examples = (refl, refl, refl, refl, refl)
