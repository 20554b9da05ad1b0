-- ===== src/LanGateway.antt =====
-- The LAN gateway of runtime/proxy-stack/proxy_stack.py: the plan for one client, the nftables file and
-- the marker that says which client has it.
pub mod Nft
pub mod Coverage
use proxy_gateway_console_pu.Prelude.{
  ◌==◌, ◌<>◌, ◌&&◌, ◌||◌, not, all, any, Bool, true, false, if◌then◌else◌, some, none, Option,
  str_contains, words, ◌++◌, [], ◌∷◌, List, String, Char, ℕ, code, ◌=?◌, ltb, leb,
}
use proxy_gateway_console_pu.NetworkEvents.{Ran, first_line, parse_route_interface, or_else}

-- The marker file; one that is missing is not enabled.
pub record Marker : Type 0 where
  pub enabled : Bool
  pub client_ip : String
  pub server : String
  pub interface : String
  pub gateway : String

-- The two files, and the commands that were run.
pub record Gate : Type 0 where
  pub nft_file : Option String
  pub marker : Marker
  pub ran : List (List String)

-- Who runs the program, what the commands answer, what the logs say of the last client for a server, and
-- what `ipaddress` reads: the text of an IPv4 address, the network of an interface address, and whether
-- an address is in a network. none stands for ValueError, and for an address that is not IPv4.
pub record Machine : Type 0 where
  pub is_root : Bool
  pub answer : List (List String) → List String → Ran
  pub inferred : String → String
  pub ipv4_text : String → Option String
  pub interface_network : String → Option String
  pub in_network : String → String → Option Bool

unfoldable pub after_word : String → List String → String
after_word word [] = ""
after_word word (part ∷ []) = ""
after_word word (part ∷ next ∷ rest) =
    let later = after_word word (next ∷ rest) in if part == word then next else later

unfoldable pub parse_route_source : String → String
parse_route_source text = after_word "src" (words text)

unfoldable pub parse_route_gateway : String → String
parse_route_gateway text = after_word "via" (words text)

abbrev pub text_or_empty : Option String → String
text_or_empty none = ""
text_or_empty (some text) = text

-- [A-Za-z0-9_.:-]
unfoldable pub is_name_char : Char → Bool
is_name_char c =
    let n = code c in
    (leb 65 n && leb n 90)
    || (leb 97 n && leb n 122)
    || (leb 48 n && leb n 58)
    || n =? 95
    || n =? 46
    || n =? 45

unfoldable pub all_chars : (Char → Bool) → String → Bool
all_chars p String.[] = true
all_chars p (String.◌∷◌ c rest) = p c && all_chars p rest

unfoldable pub validate_interface_name : String → String
validate_interface_name value =
    if not (value == "") && all_chars is_name_char value then value else ""

-- What `nft list table` says.
pub record NftState : Type 0 where
  pub state : String
  pub detail : String

abbrev pub nft_state : String → String → NftState
nft_state state detail = record { state = state; detail = detail }

pub record Plan : Type 0 where
  pub enabled : Bool
  pub server : String
  pub interface : String
  pub gateway : String
  pub cidr : String
  pub client_ip : String
  pub nft : NftState
  pub marker_stale : Bool
  pub errors : List String

-- "ok" of the plan
unfoldable pub is_ok : Plan → Bool
is_ok plan = elim plan.errors [ [] ↦ true | _ ↦ false ]

abbrev pub error_if : Bool → String → List String
error_if true error = error ∷ []
error_if false error = []

abbrev pub outside : Option Bool → List String
outside none = "invalid_lan_cidr" ∷ []
outside (some true) = []
outside (some false) = "client_ip_outside_lan_cidr" ∷ []

abbrev pub changed : String → String → Bool
changed new old = not (new == "") && not (old == "") && not (old == new)

module _ (w : Machine) where
  unfoldable pub run : List String → Gate → Ran × Gate
  run args g = (w.answer g.ran args, record g { ran = g.ran ++ args ∷ [] })

  unfoldable pub validate_single_ipv4 : String → String
  validate_single_ipv4 value = text_or_empty (w.ipv4_text value)

  abbrev network_of : Bool → Option String → String → String
  network_of false network later = later
  network_of true none later = later
  network_of true (some network) later = network

  unfoldable pub first_network : List String → String
  first_network [] = ""
  first_network (token ∷ tokens) =
      network_of (str_contains token "/") (w.interface_network token) (first_network tokens)

  unfoldable pub lan_cidr_for_interface : String → Gate → String × Gate
  lan_cidr_for_interface interface g =
      let (result, g') =
        run ("ip" ∷ "-4" ∷ "-o" ∷ "addr" ∷ "show" ∷ "dev" ∷ interface ∷ "scope" ∷ "global" ∷ [])
          g in
      if interface == ""
      then ("", g)
      else ((if result.ok then first_network (words result.stdout) else ""), g')

  unfoldable pub lan_gateway_nft_state : Gate → NftState × Gate
  lan_gateway_nft_state g =
      let (result, g') = run ("nft" ∷ "list" ∷ "table" ∷ "inet" ∷ "lan_gateway" ∷ []) g in
      let detail = or_else result.stderr result.stdout in
      (
        (if result.ok
            then nft_state "loaded" result.stdout
            else if str_contains detail "Operation not permitted"
            then nft_state "needs_root_check" "run: sudo nft list table inet lan_gateway"
            else if str_contains detail "No such file" || str_contains detail "not found"
            then nft_state "disabled" detail
            else nft_state "unknown" detail),
        g',
      )

  unfoldable pub plan_errors : String → String → String → String → String → List String
  plan_errors server interface gateway cidr client =
      error_if (server == "") "missing_lan_server_ip"
      ++ (error_if (validate_interface_name interface == "") "missing_or_invalid_interface"
          ++ (error_if (gateway == "") "missing_upstream_gateway"
              ++ (error_if (cidr == "") "missing_lan_cidr"
                  ++ (error_if (client == "") "missing_client_ip"
                      ++ ((if not (client == "") && not (cidr == "")
                            then outside (w.in_network client cidr)
                            else [])
                          ++ error_if (client == server || client == gateway)
                              "client_ip_conflicts_with_gateway_or_host")))))

  unfoldable pub is_stale : Marker → String → String → String → Bool
  is_stale marker client server interface =
      marker.enabled
      && (changed client marker.client_ip
          || changed server marker.server
          || changed interface marker.interface)

  unfoldable pub lan_gateway_plan : String → Gate → Plan × Gate
  lan_gateway_plan client_ip g =
      let (result, g1) = run ("ip" ∷ "route" ∷ "get" ∷ "8.8.8.8" ∷ []) g in
      let route = first_line result.stdout in
      let interface = parse_route_interface route in
      let server = parse_route_source route in
      let gateway = parse_route_gateway route in
      let (cidr, g2) = lan_cidr_for_interface interface g1 in
      let client = validate_single_ipv4 (or_else client_ip (w.inferred server)) in
      let (nft, g3) = lan_gateway_nft_state g2 in
      (
        record {
          enabled = nft.state == "loaded" || g3.marker.enabled;
          server = server;
          interface = interface;
          gateway = gateway;
          cidr = cidr;
          client_ip = client;
          nft = nft;
          marker_stale = is_stale g3.marker client server interface;
          errors = plan_errors server interface gateway cidr client;
        },
        g3,
      )
