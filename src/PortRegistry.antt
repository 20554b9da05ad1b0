-- ===== src/PortRegistry.antt =====
-- agent/port_registry.py. The allocator's answers are a sequence: `answers k host` is the port that its
-- k-th call gives, or what `bind` raises.
pub mod Distinct
use proxy_gateway_console_pu.Prelude.{
  zero, ◌+◌, true, false, ◌||◌, some, ◌=?◌, ◌<>◌, not, ◌==◌, ◌&&◌, suc, none, ◌++◌, if◌then◌else◌,
  Bool, Option, ◌∷◌, map, List, [], String, ℕ,
}
use proxy_gateway_console_pu.Outcome.{value_error, runtime_error, raised, ok, Outcome}
use proxy_gateway_console_pu.Json.{dict, str, field, end, nat, obj, Json, Fields}
use proxy_gateway_console_pu.Host.{utc_now_iso, Host}

pub record Registry : Type 0 where
  pub allocated : List (String × ℕ)
  pub calls : ℕ

-- PortRegistry()
abbrev pub empty : Registry
empty = record { allocated = []; calls = 0 }

abbrev pub is_taken : String → ℕ → List (String × ℕ) → Bool
is_taken host port [] = false
is_taken host port ((h, p) ∷ rest) = (h == host && p =? port) || is_taken host port rest

abbrev pub allocated_or : String → Outcome (Option ℕ) → Outcome ℕ
allocated_or id (ok none) = raised (runtime_error ("could not allocate a free port for " <> id))
allocated_or id (ok (some port)) = ok port
allocated_or id (raised e) = raised e

-- _listener_payload
abbrev pub listener : String → ℕ → Json
listener host port = obj (("host", str host) ∷ ("port", nat port) ∷ [])

abbrev pub listener_ids : List String
listener_ids = "dashboard" ∷ "unlock" ∷ "httpProxy" ∷ "socksProxy" ∷ "controllerApi" ∷ []

abbrev then_field : String → String → Outcome ℕ → Outcome Fields → Outcome Fields
then_field id host (raised e) rest = raised e
then_field id host (ok port) (raised e) = raised e
then_field id host (ok port) (ok fs) = ok (field id (listener host port) fs)

abbrev pub on_loopback : List String → List (String × String)
on_loopback ids = map (λ id. (id, "127.0.0.1")) ids

-- `if include_lan and lan_host`
abbrev pub wanted : Bool → String → List (String × String)
wanted include_lan lan_host =
    on_loopback listener_ids
    ++ (if include_lan && not (lan_host == "") then ("lanProxy", lan_host) ∷ [] else [])

unfoldable pub manifest : String → String → Fields → Json
manifest session_id created_at listeners = obj (
    ("version", nat 2)
    ∷ ("sessionId", str session_id)
    ∷ ("createdAt", str created_at)
    ∷ ("listeners", dict listeners)
    ∷ ("privacy", obj (("state", str "tmpfs") ∷ ("logs", str "redacted") ∷ []))
    ∷ [])

module _ (answers : ℕ → String → Outcome ℕ) where
  -- the loop of `allocate`, with its rounds left; `none` when none is left
  unfoldable pub try_ports : ℕ → String → Registry → Outcome (Option ℕ) × Registry
  try_ports zero host r = (ok none, r)
  try_ports (suc rounds) host r = elim (answers r.calls host) [
    | raised e ↦ (raised e, record r { calls = r.calls + 1 })
    | ok port ↦ elim (is_taken host port r.allocated) [
      | true ↦ try_ports rounds host (record r { calls = r.calls + 1 })
      | false ↦
          (ok (some port), record { allocated = (host, port) ∷ r.allocated; calls = r.calls + 1 })
    ]
  ]

  unfoldable pub allocate : String → String → Registry → Outcome ℕ × Registry
  unfolding try_ports
  allocate id host r =
      if id == ""
      then (raised (value_error "listener_id is required"), r)
      else let (port, r') = try_ports 64 host r in (allocated_or id port, r')

  -- One listener after the other; the first that fails ends the row.
  unfoldable pub allocate_all : List (String × String) → Registry → Outcome Fields × Registry
  unfolding allocate
  allocate_all [] r = (ok end, r)
  allocate_all ((id, host) ∷ rest) r =
      let (port, r') = allocate id host r in
      elim port [
        | raised e ↦ (raised e, r')
        | ok p ↦ let (fs, r'') = allocate_all rest r' in (then_field id host (ok p) fs, r'')
      ]

  -- `session_id or uuid.uuid4().hex`; the registry is a new one unless one is given
  unfoldable pub build_session_manifest : Host → String → Registry → String → Bool → Outcome Json
  unfolding allocate_all manifest
  build_session_manifest h session_id registry lan_host include_lan =
      elim (allocate_all (wanted include_lan lan_host) registry).0 [
        | ok listeners ↦ ok (
            manifest (if session_id == "" then h.fresh_id else session_id) (utc_now_iso h)
              listeners)
        | raised e ↦ raised e
      ]
