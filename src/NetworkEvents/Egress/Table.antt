-- ===== src/NetworkEvents/Egress/Table.antt =====
-- The commands of the phone egress route in runtime/proxy-stack/proxy_stack.py.
use proxy_gateway_console_pu.Prelude.{
  ◌∙◌, All-append, sym, Bool-cases, ◌≡◌, refl, All, ◌⊎◌, inl, inr, ◌++◌, [], ◌∷◌, List, String, not,
  str_contains, ◌||◌, ◌<>◌,
}
use proxy_gateway_console_pu.NetworkEvents.Egress.{
  egress_priority, egress_table, Planned, planned, refused, EgressPlan, run_each, apply_commands,
  route_commands, rule_command, remove_commands, phone_egress_root_apply_from_plan,
  phone_egress_root_remove_from_plan,
}
use mathlib.Core.List.{append-nil, append_assoc}
use proxy_gateway_console_pu.NetworkEvents.{Net, System, run}

-- A command that only lists the rules, or whose table is 18190, the one of the phone.
unfoldable pub LeavesMain : List String → Type 0
LeavesMain command =
    (command ≡ "ip" ∷ "rule" ∷ "show" ∷ [])
    ⊎ ((xs : List String) × (ys : List String) × (command ≡ xs ++ "table" ∷ "18190" ∷ ys))

run_each-ran :
    (w : System) (commands : List (List String)) (n : Net)
    → (run_each w commands n).1.ran ≡ n.ran ++ commands
unfolding run_each run
run_each-ran w [] n = sym (append-nil n.ran)
run_each-ran w (command ∷ commands) n =
    run_each-ran w commands (run w command n).1 ∙ append_assoc n.ran (command ∷ []) commands

routes-LeavesMain : (w : System) (plan : EgressPlan) → All LeavesMain (route_commands w plan)
unfolding LeavesMain
routes-LeavesMain w plan = (
  inr (
    "ip" ∷ "route" ∷ "replace" ∷ plan.network ∷ "dev" ∷ plan.interface ∷ "src" ∷ plan.source_ip
        ∷ [],
    [],
    refl,
  ),
  (
    inr (
      "ip" ∷ "route" ∷ "replace" ∷ "default" ∷ "via" ∷ plan.gateway ∷ "dev" ∷ plan.interface ∷ [],
      [],
      refl,
    ),
    tt,
  ),
)

rule-LeavesMain : (w : System) (plan : EgressPlan) → LeavesMain (rule_command w plan)
unfolding LeavesMain
rule-LeavesMain w plan = inr (
  "ip" ∷ "rule" ∷ "add" ∷ "from" ∷ (plan.source_ip <> "/32") ∷ [],
  "priority" ∷ egress_priority ∷ [],
  refl,
)

remove_commands-LeavesMain :
    (w : System) (plan : EgressPlan) → All LeavesMain (remove_commands w plan)
unfolding LeavesMain
remove_commands-LeavesMain w plan = (
  inr (
    "ip" ∷ "rule" ∷ "del" ∷ "from" ∷ (plan.source_ip <> "/32") ∷ [],
    "priority" ∷ egress_priority ∷ [],
    refl,
  ),
  (inr ("ip" ∷ "route" ∷ "flush" ∷ [], [], refl), tt),
)

apply_commands-LeavesMain :
    (w : System) (plan : EgressPlan) (rules : String) → All LeavesMain (apply_commands w plan rules)
unfolding apply_commands
apply_commands-LeavesMain w plan rules =
    elim (Bool-cases (
      not (str_contains rules (plan.source_ip <> "/32"))
      || not (str_contains rules ("lookup " <> egress_table)))) [
        | inl h ↦ rw h (
            All-append LeavesMain (route_commands w plan) (rule_command w plan ∷ [])
              (routes-LeavesMain w plan) (rule-LeavesMain w plan, tt))
        | inr h ↦ rw h (routes-LeavesMain w plan)
      ]

-- What applying or removing the egress of a phone runs, whatever the commands answer, leaves the other
-- routing tables and rules alone: each
-- command has `table 18190`, the phone's, among its arguments, but for the one that lists the rules.
pub phone_egress_root-LeavesMain :
    (w : System) (plan : Planned) (n : Net)
    → ((commands : List (List String)) × All LeavesMain commands
        × ((phone_egress_root_apply_from_plan w plan n).1.ran ≡ n.ran ++ commands))
      × ((commands : List (List String)) × All LeavesMain commands
          × ((phone_egress_root_remove_from_plan w plan n).1.ran ≡ n.ran ++ commands))
unfolding phone_egress_root_apply_from_plan phone_egress_root_remove_from_plan run LeavesMain
phone_egress_root-LeavesMain w (refused error) n =
    (([], tt, sym (append-nil n.ran)), ([], tt, sym (append-nil n.ran)))
phone_egress_root-LeavesMain w (planned plan) n =
    let show_rules = "ip" ∷ "rule" ∷ "show" ∷ [] in
    let n' = (run w show_rules n).1 in
    let commands = apply_commands w plan (w.answer n.ran show_rules).stdout in
    (
      (
        show_rules ∷ commands,
        (inl refl, apply_commands-LeavesMain w plan _),
        run_each-ran w commands n' ∙ append_assoc n.ran (show_rules ∷ []) commands,
      ),
      (
        remove_commands w plan,
        remove_commands-LeavesMain w plan,
        run_each-ran w (remove_commands w plan) n,
      ),
    )
