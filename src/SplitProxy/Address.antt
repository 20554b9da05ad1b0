-- ===== src/SplitProxy/Address.antt =====
-- Addresses and networks as runtime/proxy-stack/iphone_lan_split_proxy.py uses them: PRIVATE_NETS,
-- `load_networks` and `is_direct_ip`. `ip in network` compares the leading bits.
use proxy_gateway_console_pu.Prelude.{
  ◌=?◌, starts_with, ◌-◌, ◌&&◌, ◌<>◌, ◌==◌, refl, ◌^◌, ◌||◌, ◌+◌, true, leb, ◌%◌, is_space, ◌≡◌,
  ◌/◌, false, ◌*◌, if◌then◌else◌, read_digits, none, show_ℕ, some, strip, ℕ, String, Option, Bool,
  split_at, List, [], ◌∷◌,
}
use proxy_gateway_console_pu.Outcome.{Outcome, ok, raised}

-- ipaddress.IPv4Address, by its value, and IPv6Address
pub data Ip : Type 0 where
  v4 : ℕ → Ip
  v6 : Ip

-- ipaddress.IPv4Network: its first address and the length of its prefix; and IPv6Network
pub record Net : Type 0 where
  pub base : ℕ
  pub prefix : ℕ

pub data Network : Type 0 where
  net4 : Net → Network
  net6 : Network

-- What ipaddress makes of texts that are no dotted quad: whether `ip_address` reads an IPv6 address, and
-- `ip_network(text, strict=False)`, which may raise `ValueError`.
pub record Addresses : Type 0 where
  pub is_ipv6 : String → Bool
  pub ip_network : String → Outcome Network

unfoldable pub in_net : ℕ → Net → Bool
in_net ip net = ip / 2 ^ (32 - net.prefix) =? net.base / 2 ^ (32 - net.prefix)

unfoldable pub in_any : List Net → ℕ → Bool
in_any [] ip = false
in_any (net ∷ nets) ip = in_net ip net || in_any nets ip

abbrev pub quad : ℕ → ℕ → ℕ → ℕ → ℕ
quad a b c d = ((a * 256 + b) * 256 + c) * 256 + d

abbrev pub net : ℕ → ℕ → Net
net base prefix = record { base = base; prefix = prefix }

unfoldable pub private_nets : List Net
private_nets =
    net (quad 0 0 0 0) 8
    ∷ net (quad 10 0 0 0) 8
    ∷ net (quad 100 64 0 0) 10
    ∷ net (quad 127 0 0 0) 8
    ∷ net (quad 169 254 0 0) 16
    ∷ net (quad 172 16 0 0) 12
    ∷ net (quad 192 168 0 0) 16
    ∷ net (quad 224 0 0 0) 4
    ∷ net (quad 240 0 0 0) 4
    ∷ []

unfoldable pub is_direct_ip : List Net → ℕ → Bool × String
is_direct_ip cn_networks ip =
    if in_any private_nets ip
    then (true, "private")
    else if in_any cn_networks ip
    then (true, "cn-ip")
    else (false, "foreign-ip")

-- One part of a dotted quad: one to three digits, no leading zero, at most 255.
abbrev pub octet_of : String → Option ℕ → Option ℕ
octet_of s none = none
octet_of s (some n) = if leb n 255 && (s == show_ℕ n) then some n else none

unfoldable pub octet : String → Option ℕ
octet s = octet_of s (read_digits 0 false s)

abbrev pub quad_of : Option ℕ → Option ℕ → Option ℕ → Option ℕ → Option Ip
quad_of (some a) (some b) (some c) (some d) = some (v4 (quad a b c d))
quad_of a b c d = none

abbrev pub quad_parts : List String → Option Ip
quad_parts (a ∷ b ∷ c ∷ d ∷ []) = quad_of (octet a) (octet b) (octet c) (octet d)
quad_parts parts = none

-- str(ip) of an IPv4 address
unfoldable pub show_ip : ℕ → String
show_ip n =
    show_ℕ (n / 256 / 256 / 256 % 256)
    <> "."
    <> show_ℕ (n / 256 / 256 % 256)
    <> "."
    <> show_ℕ (n / 256 % 256)
    <> "."
    <> show_ℕ (n % 256)

abbrev pub v6_if : Bool → Option Ip
v6_if true = some v6
v6_if false = none

module _ (a : Addresses) where
  -- ipaddress.ip_address(text), none where it raises `ValueError`
  unfoldable pub ip_address : String → Option Ip
  ip_address text = elim (quad_parts (split_at b'.' text)) [
    | some ip ↦ some ip
    | none ↦ v6_if (a.is_ipv6 text)
  ]

  abbrev pub add_network : Outcome Network → Outcome (List Net) → Outcome (List Net)
  add_network (raised e) rest = raised e
  add_network (ok net6) rest = rest
  add_network (ok (net4 n)) (ok ns) = ok (n ∷ ns)
  add_network (ok (net4 n)) (raised e) = raised e

  -- The lines of the file, none for a file that does not exist.
  unfoldable pub network_lines : List String → Outcome (List Net)
  network_lines [] = ok []
  network_lines (line ∷ lines) =
      let value = strip is_space line in
      let rest = network_lines lines in
      if value == "" || starts_with value "#" then rest else add_network (a.ip_network value) rest

  unfoldable pub load_networks : Option (List String) → Outcome (List Net)
  load_networks none = ok []
  load_networks (some lines) = network_lines lines

ip_address_examples :
    (quad_parts (split_at b'.' "192.168.1.5") ≡ some (v4 3_232_235_781))
    × (quad_parts (split_at b'.' "10.0.0.01") ≡ none)
    × (show_ip 3_232_235_781 ≡ "192.168.1.5")
    × (is_direct_ip [] 3_232_235_781 ≡ (true, "private"))
    × (is_direct_ip (net (quad 1 2 4 0) 22 ∷ []) (quad 1 2 7 9) ≡ (true, "cn-ip"))
    × (is_direct_ip [] (quad 8 8 8 8) ≡ (false, "foreign-ip"))
unfolding split_at octet read_digits show_ℕ show_ip is_direct_ip in_any in_net private_nets
ip_address_examples = (refl, refl, refl, refl, refl, refl)
