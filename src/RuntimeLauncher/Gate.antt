-- ===== src/RuntimeLauncher/Gate.antt =====
-- When `start_runtime` of agent/runtime_launcher.py starts the child, and what it then leaves.
use proxy_gateway_console_pu.Prelude.{
  show_ℤ, map, ◌∷◌, List, ◌∙◌, String, ap, eq_iff, ◌==◌, Option-cases, Option, ℤ, ◌≡◌, refl, true,
  false, Bool, Bool-cases, inl, inr, ◌⊎◌, none, some, [],
}
use proxy_gateway_console_pu.RuntimeLauncher.Launch.{
  command_for, stop_runtime, child_state, lan_proxy_command, child_state_path, spawn_process,
  child_by_id, launch, launch_child, after_spawn, start_runtime,
}
use proxy_gateway_console_pu.Json.{
  nat, int, obj, lookup, str, arr, dict_or_empty, bool, get, get_or, Json, truthy, Fields,
}
use proxy_gateway_console_pu.SessionStore.{
  token_path, session_path, json, FilePath, set_file, Store, World, write_json, write_json_to_path,
  resolve_managed_path,
}
use proxy_gateway_console_pu.SessionStore.Returns.{Returns-bind, Returns}
use proxy_gateway_console_pu.GatewayAgent.Stop.{
  ensure_default, store_of, Kills, HasChildren, stop_runtime-returns,
}
use proxy_gateway_console_pu.Outcome.{ok, raised, Outcome, Exception, Outcome-cases}
use proxy_gateway_console_pu.Host.{Host}

-- The lanProxy entry of the plan's children.
abbrev pub lan_child : Fields → Outcome (Option Fields)
lan_child plan = child_by_id (get_or "children" (arr []) plan) "lanProxy"

-- The four guards and the entry.
pub record IsStart (plan : Fields) (dry_run allow_child : Bool) (child : Fields) : Type 0 where
  pub ok : truthy (get_or "ok" (bool false) plan) ≡ true
  pub wet : dry_run ≡ false
  pub allowed : allow_child ≡ true
  pub loaded : truthy (get "profileLoaded" plan) ≡ true
  pub listener : lan_child plan ≡ Outcome.ok (some child)

-- Either every guard holds; or `start_runtime` returns and touches nothing; or the search for the lanProxy
-- entry meets children that are no list of dicts and raises, and nothing is touched.
pub start_runtime-guarded :
    (h : Host) (plan : Fields) (dry_run allow_child : Bool) (s : Store)
    → ((child : Fields) × IsStart plan dry_run allow_child child)
      ⊎ (Returns (start_runtime h plan dry_run allow_child) s (λ report u. u ≡ s)
          ⊎ ((e : Exception) × (lan_child plan ≡ raised e)
              × (start_runtime h plan dry_run allow_child s ≡ (raised e, s))))
unfolding start_runtime launch_child
start_runtime-guarded h plan dry_run allow_child s =
    elim (Bool-cases (truthy (get_or "ok" (bool false) plan))) [
      | inr bad ↦ inr (inl (rw bad refl))
      | inl good ↦ elim (Bool-cases dry_run) [
        | inl dry ↦ inr (inl (rw good (rw dry refl)))
        | inr wet ↦ elim (Bool-cases allow_child) [
          | inr barred ↦ inr (inl (rw good (rw wet (rw barred refl))))
          | inl allowed ↦ elim (Bool-cases (truthy (get "profileLoaded" plan))) [
            | inr unloaded ↦ inr (inl (rw good (rw wet (rw allowed (rw unloaded refl)))))
            | inl loaded ↦ elim (Outcome-cases (lan_child plan)) [
              | inr (e, lost) ↦
                  inr (inr (e, lost, rw good (rw wet (rw allowed (rw loaded (rw lost refl))))))
              | inl (o, q) ↦ elim (Option-cases o) [
                | inl absent ↦
                    inr (inl (rw good (rw wet (rw allowed (rw loaded (rw q (rw absent refl)))))))
                | inr (child, found) ↦ inl (
                  child,
                  record {
                    ok = good;
                    wet = wet;
                    allowed = allowed;
                    loaded = loaded;
                    listener = q ∙ ap ok found;
                  },
                )
              ]
            ]
          ]
        ]
      ]
    ]

-- The command line of the child, and what the child file holds of the process.
abbrev pub command_line : Host → String → ℤ → List String
command_line h host port =
    h.executable
    ∷ h.child_script
    ∷ "--listen-host"
    ∷ host
    ∷ "--listen-port"
    ∷ show_ℤ port
    ∷ "--upstream-host"
    ∷ "127.0.0.1"
    ∷ "--upstream-port"
    ∷ "18180"
    ∷ []

abbrev pub recorded_process : Host → String → ℤ → ℤ → Json
recorded_process h host port pid = obj (
    ("version", nat 2)
    ∷ ("startedAt", str (h.iso h.now))
    ∷ (
      "children",
      arr (
          obj (
            ("id", str "lanProxy")
            ∷ ("pid", int pid)
            ∷ ("host", str host)
            ∷ ("port", int port)
            ∷ ("upstream", str "127.0.0.1:18180")
            ∷ ("command", arr (map str (command_line h host port)))
            ∷ [])
          ∷ []),
    )
    ∷ [])

-- What a start leaves: the pid, the address and the command of the process in the child file, with
-- session and token as they were.
pub record Started (h : Host) (w : World) (host : String) (port pid : ℤ) (report : Json) (u : Store)
    : Type 0 where
  pub running : get "state" (dict_or_empty report) ≡ str "running"
  pub recorded : u.files (child_state_path u) ≡ some (json (recorded_process h host port pid))
  pub session : u.files (session_path u) ≡ w.files (session_path (store_of h w))
  pub token : u.files (token_path u) ≡ w.files (token_path (store_of h w))

module _ (h : Host) (usable : h.dirs.is_usable h.dirs.default_dir ≡ true) where
  module _ (child : Fields) (host : String) (port pid : ℤ)
      (at_host : lookup "host" child ≡ some (str host))
      (at_port : lookup "port" child ≡ some (int port)) where
    after_spawn-Started :
        (w w1 : World) (fallback : Json)
        → w1.files ≡ (set_file (child_state_path (store_of h w)) none w).files
        → Returns
            (after_spawn h (ok pid) child (command_line h host port) fallback)
            (store_of h w1)
            (Started h w host port pid)
    unfolding after_spawn write_json write_json_to_path resolve_managed_path set_file
        child_state_path child_state
    after_spawn-Started w w1 fallback same =
        let p : FilePath = child_state_path (store_of h w) in
        let n : (p.dir == p.dir) ≡ true = (eq_iff p.dir p.dir).1 refl in
        rw (at_host, at_port)
          (rw (ensure_default h usable w1) (record {
            running = refl;
            recorded = rw n refl;
            session = ap (λ f. f (session_path (store_of h w))) same;
            token = ap (λ f. f (token_path (store_of h w))) same;
          }))

    lan_proxy_command_lem : lan_proxy_command h child ≡ ok (command_line h host port)
    unfolding lan_proxy_command command_for
    lan_proxy_command_lem = rw (at_host, at_port) refl

    -- Where every guard holds, the entry has the text `host` and the number `port`, the runtime directory
    -- is usable, what children are recorded are a list of dicts, killing raises no more than `OSError` and
    -- the process starts with a pid: `start_runtime` returns "running", the child file records the pid,
    -- the address and the command of that process, and the session and the token stay.
    pub start_runtime-Started :
        (plan : Fields) (dry_run allow_child : Bool) (w : World)
        → IsStart plan dry_run allow_child child
        → Kills h
        → HasChildren h w
        → h.spawn (command_line h host port) ≡ ok pid
        → Returns
            (start_runtime h plan dry_run allow_child)
            (store_of h w)
            (Started h w host port pid)
    unfolding start_runtime launch_child launch spawn_process
    start_runtime-Started plan dry_run allow_child w is kills children spawns = rw is.ok (
        rw is.wet (
          rw is.allowed (
            rw is.loaded (
              rw is.listener (
                rw (ensure_default h usable w) (
                  Returns-bind (stop_runtime h) _ (store_of h w) _ (Started h w host port pid)
                    (stop_runtime-returns h usable w kills children)
                    (λ r u (w1, e, same).
                      rw (e, lan_proxy_command_lem)
                        (rw spawns (after_spawn-Started w _ _ same)))))))))
