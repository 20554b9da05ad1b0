-- ===== src/LanGateway/Nft/Applied.antt =====
-- What root's operations on the LAN gateway of runtime/proxy-stack/proxy_stack.py leave.
use proxy_gateway_console_pu.LanGateway.Nft.{render_lan_gateway_nft, marker_of}
use proxy_gateway_console_pu.Prelude.{true, ◌≡◌, String, Option, some, none}
use proxy_gateway_console_pu.Outcome.{Outcome, ok}
use proxy_gateway_console_pu.LanGateway.{Machine, Gate, Plan, is_ok, lan_gateway_plan}

-- An error leaves the marker; else it was root, the plan was ok, the file holds its rules, and the marker
-- names its client.
unfoldable pub IsApplied : Machine → String → Gate → Option String × Gate → Type 0
IsApplied w client_ip g (some error, g') = g'.marker ≡ g.marker
IsApplied w client_ip g (none, g') =
    (w.is_root ≡ true)
    × ((is_ok (lan_gateway_plan w client_ip g).0 ≡ true)
        × ((text : String) × (render_lan_gateway_nft w (lan_gateway_plan w client_ip g).0 ≡ ok text)
            × (g'.nft_file ≡ some text)
            × (g'.marker ≡ marker_of w (lan_gateway_plan w client_ip g).0)))

-- What loading the rules of the file leaves, as an error or without one.
abbrev IsLoaded : Machine → Plan → Gate → Option String × Gate → Type 0
IsLoaded w plan g (some error, g') = g'.marker ≡ g.marker
IsLoaded w plan g (none, g') = (g'.nft_file ≡ g.nft_file) × (g'.marker ≡ marker_of w plan)
