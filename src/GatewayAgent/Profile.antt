-- ===== src/GatewayAgent/Profile.antt =====
-- The profile commands of agent/gateway_agent.py that unlock and start.
use proxy_gateway_console_pu.Prelude.{true, ◌==◌, false, [], ◌∷◌, not, if◌then◌else◌, Bool, String}
use proxy_gateway_console_pu.Json.{
  fields, dict, truthy, dict_or_empty, bool, without, str, obj, get, Json, Fields,
}
use proxy_gateway_console_pu.ProfileCrypto.{
  profile_summary, profile_digest, read_encrypted_profile, Crypto,
}
use proxy_gateway_console_pu.SessionStore.{
  pure, lift, write_event, FilePath, write_token, read_session, Action, ◌>>=◌, ◌>>◌,
}
use proxy_gateway_console_pu.Outcome.{profile_crypto_error, raised, ok, Outcome}
use proxy_gateway_console_pu.RuntimeLauncher.Launch.{start_runtime}
use proxy_gateway_console_pu.GatewayAgent.Status.{on_new_store, profile_source_status}
use proxy_gateway_console_pu.RuntimeLauncher.Plan.{build_runtime_plan}
use proxy_gateway_console_pu.UnlockServer.{new_token}
use proxy_gateway_console_pu.Host.{Host}

module _ (h : Host) (c : Crypto) where
  abbrev pub refused_source : String → Fields → Json
  refused_source summary source = obj (
      ("ok", bool false)
      ∷ ("state", str "blocked")
      ∷ ("summary", str summary)
      ∷ ("profileSource", dict source)
      ∷ [])

  abbrev pub source_path : Fields → FilePath
  source_path source = elim (get "path" source) [ str s ↦ h.path_of s | _ ↦ h.path_of "" ]

  abbrev pub mode_of : Fields → Json
  mode_of source = obj (("mode", get "mode" source) ∷ [])

  -- The token of `unlock_local_profile`, and its event.
  unfoldable pub store_local_token : String → Json → Fields → Action Json
  store_local_token passphrase profile source = do
    digest ← lift (profile_digest c profile)
    let summary = profile_summary profile
    let token =
        new_token h (not (passphrase == "")) digest summary (("profileSource", mode_of source) ∷ [])
    write_token h.dirs (dict token)
    write_event h.dirs (
        fields (
          ("event", str "unlock")
          ∷ ("state", str "unlocked")
          ∷ ("profileSource", mode_of source)
          ∷ ("profile", summary)
          ∷ ("token", get "token" token)
          ∷ []))
    pure (
        obj (
          ("ok", bool true)
          ∷ ("state", str "unlocked")
          ∷ (
            "summary",
            str "encrypted local profile loaded and unlock token created in private runtime state",
          )
          ∷ ("token", dict (without "token" token))
          ∷ ("profileSource", dict source)
          ∷ []))

  unfoldable pub on_local : Outcome Json → String → Fields → Action Json
  on_local (ok profile) passphrase source = store_local_token passphrase profile source
  on_local (raised (profile_crypto_error m)) passphrase source = pure (refused_source m source)
  on_local (raised e) passphrase source = lift (raised e)

  -- The store is the caller's.
  unfoldable pub unlock_local_profile : String → String → Action Json
  unlock_local_profile profile_path passphrase s =
      let source = profile_source_status h s.world profile_path "" in
      if not (truthy (get "present" source))
      then (ok (refused_source "encrypted local profile is required before unlock" source), s)
      else on_local (read_encrypted_profile c s.world (source_path source) passphrase) passphrase
          source s

  unfoldable pub start_with : Outcome Json → Fields → Bool → Action Json
  start_with (ok profile) source allow_child = do
    session ← read_session h.dirs
    plan ← lift (build_runtime_plan session profile)
    start_runtime h (dict_or_empty plan) false allow_child
  start_with (raised (profile_crypto_error m)) source allow_child = pure (refused_source m source)
  start_with (raised e) source allow_child = lift (raised e)

  unfoldable pub start_command : String → String → Bool → Action Json
  start_command profile_path passphrase allow_child s =
      let source = profile_source_status h s.world profile_path "" in
      if not (truthy (get "present" source))
      then (
        ok (
            refused_source "encrypted local profile is required before v2 child services start"
              source),
        s,
      )
      else start_with (read_encrypted_profile c s.world (source_path source) passphrase) source
          allow_child s

  unfoldable pub runtime_start_command : String → String → Bool → Action Json
  runtime_start_command profile_path passphrase allow_child =
      on_new_store h (start_command profile_path passphrase allow_child)
