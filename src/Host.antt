-- ===== src/Host.antt =====
-- What the agent asks of the system that it runs on: the answers of one moment, as functions.
use proxy_gateway_console_pu.Json.{Json}
use proxy_gateway_console_pu.SessionStore.{FilePath, Dirs}
use proxy_gateway_console_pu.Prelude.{List, Bool, ℤ, Option, ℕ, String}
use proxy_gateway_console_pu.Outcome.{Outcome}

-- What `datetime.fromisoformat` makes of a text: a time with an offset, in microseconds, or one without.
pub data IsoTime : Type 0 where
  aware : ℕ → IsoTime
  naive : IsoTime

pub record Host : Type 0 where
  pub dirs : Dirs
  -- utc_now_iso(), in microseconds, and `datetime.fromisoformat` with +00:00 for each Z, `none` where it
  -- raises `ValueError`
  pub now : ℕ
  pub iso : ℕ → String
  pub from_iso : String → Option IsoTime
  -- os.environ: GATEWAY_AGENT_V2, GATEWAY_AGENT_USB_ROOT and GATEWAY_AGENT_LAN_HOST, with "" for what
  -- is not set
  pub feature_flag : String
  pub usb_root : String
  pub lan_host : String
  -- str(Path(path).expanduser())
  pub expanduser : String → String
  -- Path.exists of a directory
  pub exists : String → Bool
  -- default_profile_path(), and a path of the command line, as a directory and a name
  pub default_profile_path : FilePath
  pub path_of : String → FilePath
  -- the k-th answer of the port allocator, for a host
  pub ports : ℕ → String → Outcome ℕ
  -- secrets.token_urlsafe(32) and uuid.uuid4().hex
  pub fresh_token : String
  pub fresh_id : String
  -- str(v) of a value that is no text
  pub str_of : Json → String
  -- process_killer, process_checker and process_factory
  pub kill : ℤ → Outcome Bool
  pub is_running : ℤ → Bool
  pub spawn : List String → Outcome ℤ
  -- `ip_address(host).is_loopback` and `.is_unspecified`, false where the host is no address
  pub is_loopback_ip : String → Bool
  pub is_unspecified_ip : String → Bool
  -- _tcp_listener_open
  pub is_listening : String → ℤ → Bool
  -- sys.executable and the path of lan_proxy_child.py
  pub executable : String
  pub child_script : String

abbrev pub utc_now_iso : Host → String
utc_now_iso h = h.iso h.now
