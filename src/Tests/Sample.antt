-- ===== src/Tests/Sample.antt =====
-- Concrete profiles, a concrete host and a toy cipher.
use proxy_gateway_console_pu.Host.{aware, Host}
use proxy_gateway_console_pu.Prelude.{
  ℕ, zero, suc, ◌+◌, [], ◌∷◌, Option, none, some, true, false, String, ◌=?◌, pos,
}
use Prim.Native.Char.{Char, code}
use proxy_gateway_console_pu.Json.{Json, str, nat, arr, obj, dict, Fields, fields}
use proxy_gateway_console_pu.Outcome.{ok}
use proxy_gateway_console_pu.SessionStore.{World, Dirs}
use proxy_gateway_console_pu.ProfileCrypto.{Crypto, Bytes}

abbrev pub routes : Fields
routes = fields (
    ("office", obj (("type", str "http") ∷ ("endpoint", str "http://10.0.0.2:3128") ∷ []))
    ∷ ("home", obj (("type", str "direct") ∷ []))
    ∷ (
      "both",
      obj (("type", str "failover") ∷ ("order", arr (str "office" ∷ str "home" ∷ [])) ∷ []),
    )
    ∷ [])

abbrev pub sample_profile : Json
sample_profile =
    obj (("version", nat 2) ∷ ("routes", dict routes) ∷ ("defaultRoute", str "both") ∷ [])

abbrev pub dirs : Dirs
dirs = record { default_dir = "/run/gateway"; fallback_dir = "/tmp/gateway"; is_usable = λ d. true }

abbrev pub host : Host
host = record {
  dirs = dirs;
  now = 1000;
  iso = λ n. "2026-01-01T00:00:00Z";
  expanduser = λ path. path;
  from_iso = λ s. some (aware 5000);
  feature_flag = "1";
  usb_root = "";
  lan_host = "";
  exists = λ p. false;
  default_profile_path = record { dir = "/etc/gateway"; name = "profile.json.enc" };
  path_of = λ s. record { dir = "/"; name = s };
  ports = λ k s. ok (20000 + k);
  fresh_token = "t";
  fresh_id = "s1";
  str_of = λ v. "";
  kill = λ pid. ok true;
  is_running = λ pid. true;
  spawn = λ command. ok (pos 4242);
  is_loopback_ip = λ s. false;
  is_unspecified_ip = λ s. false;
  is_listening = λ s p. true;
  executable = "python3";
  child_script = "lan_proxy_child.py";
}

abbrev pub no_files : World
no_files = record { files = λ p. none; signalled = []; spawned = [] }

-- A number is that many strokes and a bar.
abbrev stroke : Char
stroke = "i"

abbrev bar : Char
bar = "|"

unfoldable pub strokes : ℕ → String → String
strokes zero s = s
strokes (suc n) s = String.◌∷◌ stroke (strokes n s)

unfoldable pub encode : Bytes → String
encode [] = ""
encode (n ∷ bs) = strokes n (String.◌∷◌ bar (encode bs))

abbrev with_first : ℕ → Option Bytes → Option Bytes
with_first n none = none
with_first n (some bs) = some (n ∷ bs)

unfoldable pub decode : ℕ → String → Option Bytes
decode n String.[] = some []
decode n (String.◌∷◌ c s) = elim (code c =? code bar) [
  | true ↦ with_first n (decode 0 s)
  | false ↦ decode (suc n) s
]

abbrev pub toy : Crypto
toy = record {
  derive_key = λ passphrase salt. salt;
  encrypt = λ k n p aad. p;
  decrypt = λ k n p aad. ok p;
  salt = 1 ∷ [];
  nonce = 2 ∷ [];
  b64encode = encode;
  b64decode = decode 0;
  encode = λ text. 7 ∷ [];
  dumps = λ sort_keys v. "{}";
  loads = λ bs. some sample_profile;
  sha256 = λ bs. "d";
}
