-- ===== src/Tests/Plans.antt =====
-- The theorem on the planned listeners, at concrete data.
use proxy_gateway_console_pu.Json.{nat, str, obj, fields, Fields}
use proxy_gateway_console_pu.Prelude.{◌∷◌, ◌↔◌, [], ◌≡◌}
use proxy_gateway_console_pu.Outcome.{ok}
use proxy_gateway_console_pu.RuntimeLauncher.Plan.{plan_listeners}
use proxy_gateway_console_pu.RuntimeLauncher.Listeners.{EachValid, children_for, plan_listeners_iff}

abbrev two_listeners : Fields
two_listeners = fields (
    ("dashboard", obj (("host", str "127.0.0.1") ∷ ("port", nat 20001) ∷ []))
    ∷ ("lanProxy", obj (("host", str "192.168.1.5") ∷ ("port", nat 20005) ∷ []))
    ∷ [])

plan_listeners_iff_example :
    (plan_listeners two_listeners ≡ ok (children_for two_listeners, []))
    ↔ (EachValid two_listeners × (children_for two_listeners ≡ children_for two_listeners))
plan_listeners_iff_example = plan_listeners_iff two_listeners (children_for two_listeners)
