-- ===== src/NetworkEvents/Invariant.antt =====
-- What every operation on the events of runtime/proxy-stack/proxy_stack.py keeps.
use proxy_gateway_console_pu.NetworkEvents.Select.{
  changes_policy, uses_phone, is_choice, resolved_event, upstream_select, select_event, finish,
  save_choice, resolve_event, find_event,
}
use proxy_gateway_console_pu.Prelude.{
  ◌||◌, ◌&&◌, length, any, ap, subst, ◌<>◌, inr, inl, ◌==◌, Bool, true, false, ◌≡◌, refl, All, sym,
  [], ◌∷◌, List, String, if◌then◌else◌, not, Bool-cases, arith, Option, none, some,
}
use proxy_gateway_console_pu.NetworkEvents.{
  phone_event_matches_plan, same_bool, is_phone_driver, Net, System, run, Event, Plan, mark_event,
  mark_phone_event_presence, plans_of, discover_phone_tether_plans, nmcli_device_connection,
  record_phone_tether_event, save_phone_tether_policy, phone_tether_plan,
}
use proxy_gateway_console_pu.NetworkEvents.Pending.{Apart, NoClash, clash}
use proxy_gateway_console_pu.NetworkEvents.Store.{
  IsStore, write-IsStore, record_phone_tether_event-IsStore,
}
use proxy_gateway_console_pu.NetworkEvents.Scan.{
  ask_all, network_events_json, phone_tether_guard_apply, apply_connection_policy,
}
use proxy_gateway_console_pu.NetworkEvents.Egress.{phone_egress_plan}

plans_of-events :
    (w : System) (interfaces : List String) (n : Net)
    → (plans_of w interfaces n).1.events ≡ n.events
unfolding plans_of nmcli_device_connection run
plans_of-events w [] n = refl
plans_of-events w (i ∷ interfaces) n =
    let with_one = plans_of-events w interfaces (nmcli_device_connection w i n).1 in
    let without = plans_of-events w interfaces n in
    elim (Bool-cases (is_phone_driver (w.driver_of i))) [
      | inl h ↦ rw h with_one
      | inr h ↦ rw h without
    ]

discovered_of :
    (w : System) (o : Option (List String)) (n : Net)
    → (elim o as (λ x. List Plan × Net) [
      | some interfaces ↦ plans_of w interfaces n
      | none ↦ ([], n)
    ]).1.events
      ≡ n.events
discovered_of w none n = refl
discovered_of w (some interfaces) n = plans_of-events w interfaces n

discover-events : (w : System) (n : Net) → (discover_phone_tether_plans w n).1.events ≡ n.events
unfolding discover_phone_tether_plans
discover-events w n = discovered_of w w.interfaces n

marked-Apart : (plans : List Plan) (a b : Event) → Apart a b → Apart a (mark_event plans b).0
unfolding mark_event clash
marked-Apart plans a b h = elim (Bool-cases (not (b.kind == "phone_tether_detected"))) [
  | inl other ↦ rw other h
  | inr tether ↦
      elim (Bool-cases
        (same_bool b.present (any (λ plan. phone_event_matches_plan plan b) plans))) [
          | inl same ↦ rw (tether, same) h
          | inr changed ↦ rw (tether, changed) h
        ]
]

Apart-marked : (plans : List Plan) (a b : Event) → Apart a b → Apart (mark_event plans a).0 b
unfolding mark_event clash
Apart-marked plans a b h = elim (Bool-cases (not (a.kind == "phone_tether_detected"))) [
  | inl other ↦ rw other h
  | inr tether ↦
      elim (Bool-cases
        (same_bool a.present (any (λ plan. phone_event_matches_plan plan a) plans))) [
          | inl same ↦ rw (tether, same) h
          | inr changed ↦ rw (tether, changed) h
        ]
]

All-marked :
    (plans : List Plan) (a : Event) (events : List Event)
    → All (Apart a) events
    → All (Apart (mark_event plans a).0) (mark_phone_event_presence plans events).0
unfolding mark_phone_event_presence
All-marked plans a [] h = tt
All-marked plans a (b ∷ events) h =
    (Apart-marked plans a _ (marked-Apart plans a b h.0), All-marked plans a events h.1)

NoClash-marked :
    (plans : List Plan) (events : List Event)
    → NoClash events
    → NoClash (mark_phone_event_presence plans events).0
unfolding mark_phone_event_presence NoClash
NoClash-marked plans [] h = tt
NoClash-marked plans (a ∷ events) h =
    (All-marked plans a events h.0, NoClash-marked plans events h.1)

-- A resolved event waits for nothing.
All-resolved :
    (P : Event → Type 0) (event_id decision now : String) (events : List Event)
    → ((e : Event) → P e → P (resolved_event decision now e))
    → All P events
    → All P (resolve_event event_id decision now events)
unfolding resolve_event
All-resolved P event_id decision now [] kept h = tt
All-resolved P event_id decision now (e ∷ events) kept h =
    let rest = All-resolved P event_id decision now events kept h.1 in
    elim (Bool-cases (e.id == event_id)) [
      | inl i ↦ rw i (kept e h.0, h.1)
      | inr i ↦ rw i (h.0, rest)
    ]

resolved-Apart : (decision now : String) (a b : Event) → Apart a (resolved_event decision now b)
unfolding clash
resolved-Apart decision now a b = ground arith

Apart-resolved : (decision now : String) (a b : Event) → Apart (resolved_event decision now a) b
unfolding clash
Apart-resolved decision now a b = refl

All-any : (P : Event → Type 0) → ((e : Event) → P e) → (events : List Event) → All P events
All-any P f [] = tt
All-any P f (e ∷ events) = (f e, All-any P f events)

NoClash-resolved :
    (event_id decision now : String) (events : List Event)
    → NoClash events
    → NoClash (resolve_event event_id decision now events)
unfolding resolve_event NoClash
NoClash-resolved event_id decision now [] h = tt
NoClash-resolved event_id decision now (e ∷ events) h =
    let rest = NoClash-resolved event_id decision now events h.1 in
    elim (Bool-cases (e.id == event_id)) [
      | inl i ↦ rw i (
        All-any (Apart (resolved_event decision now e)) (λ o. Apart-resolved decision now e o)
            events,
        h.1,
      )
      | inr i ↦ rw i (
        All-resolved (Apart e) event_id decision now events
            (λ o apart. resolved-Apart decision now e o) h.0,
        rest,
      )
    ]

apply_connection_policy-events :
    (w : System) (connection : String) (n : Net)
    → (apply_connection_policy w connection n).1.events ≡ n.events
unfolding apply_connection_policy run
apply_connection_policy-events w connection n = refl

carried : {n m : Net} → m.events ≡ n.events → IsStore n → IsStore m
carried same h = record {
  no_clash = subst NoClash (sym same) h.no_clash;
  bounded = omega (arith, h.bounded, ap length same);
}

if-IsStore : (b : Bool) (m n : Net) → IsStore m → IsStore n → IsStore (if b then m else n)
if-IsStore true m n hm hn = hm
if-IsStore false m n hm hn = hn

-- An outcome whose state is a store.
record LeavesStore (out : Option String × Net) : Type 0 where
  left : IsStore out.1

if-LeavesStore :
    (b : Bool) (x y : Option String × Net)
    → LeavesStore x
    → LeavesStore y
    → LeavesStore (if b then x else y)
if-LeavesStore true x y hx hy = hx
if-LeavesStore false x y hx hy = hy

ask_all-IsStore :
    (w : System) (plans : List Plan) (n : Net) → IsStore n → IsStore (ask_all w plans n)
unfolding ask_all
ask_all-IsStore w [] n h = h
ask_all-IsStore w (plan ∷ plans) n h =
    ask_all-IsStore w plans _
      (if-IsStore _ _ _ (record_phone_tether_event-IsStore w plan "scan" n h.no_clash) h)

network_events_json-IsStore :
    (w : System) (n : Net) → IsStore n → IsStore (network_events_json w n).1
unfolding network_events_json
network_events_json-IsStore w n h =
    let (plans, n') = discover_phone_tether_plans w n in
    let found = carried (discover-events w n) h in
    ask_all-IsStore w _ _
      (if-IsStore _ _ _ (write-IsStore _ _ (NoClash-marked _ _ found.no_clash)) found)

phone_tether_guard_apply-IsStore :
    (w : System) (interface connection : String) (n : Net)
    → IsStore n
    → IsStore (phone_tether_guard_apply w interface connection n).1
unfolding phone_tether_guard_apply
phone_tether_guard_apply-IsStore w interface connection n h =
    let plan = phone_tether_plan w interface connection n in
    let asked =
      if plan.saved_policy == "prompt" then record_phone_tether_event w plan "" n else n in
    let kept =
      carried (apply_connection_policy-events w connection asked)
        (if-IsStore _ _ _ (record_phone_tether_event-IsStore w plan "" n h.no_clash) h) in
    elim (Bool-cases (not plan.matched)) [ inl b ↦ rw b h | inr b ↦ rw b kept ]

pub save_choice-events :
    (event : Event) (decision : String) (n : Net) → (save_choice event decision n).events ≡ n.events
unfolding save_choice save_phone_tether_policy
save_choice-events event decision n = ground arith

phone_egress_plan-events :
    (w : System) (interface connection : String) (n : Net)
    → (phone_egress_plan w interface connection n).1.events ≡ n.events
unfolding phone_egress_plan run
phone_egress_plan-events w interface connection n = refl

finish-IsStore :
    (w : System) (event : Event) (event_id decision : String) (n : Net)
    → IsStore n
    → IsStore (finish w event event_id decision n).1
unfolding finish
finish-IsStore w event event_id decision n h =
    let saved = carried (save_choice-events event decision n) h in
    let ready =
      if-IsStore (uses_phone decision) _ _
        (carried
          (phone_egress_plan-events w event.interface event.connection
            (save_choice event decision n))
          saved)
        saved in
    write-IsStore _ _ (NoClash-resolved event_id decision _ _ ready.no_clash)

select_event-LeavesStore :
    (w : System) (event : Event) (event_id decision : String) (n : Net)
    → IsStore n
    → LeavesStore (select_event w event event_id decision n)
unfolding select_event
select_event-LeavesStore w event event_id decision n h =
    let n' = (apply_connection_policy w event.connection n).1 in
    let after_it = carried {m = n'} (apply_connection_policy-events w event.connection n) h in
    let result = (apply_connection_policy w event.connection n).0 in
    if-LeavesStore (not (event.kind == "phone_tether_detected"))
      (some ("unsupported event type: " <> event.kind), n) _ (record { left = h })
      (if-LeavesStore (event.connection == "" && uses_phone decision)
        (some "phone_link_not_ready", n) _ (record { left = h })
        (if-LeavesStore (event.connection == "" || not (changes_policy decision))
          (finish w event event_id decision n) _
          (record { left = finish-IsStore w event event_id decision n h })
          (if-LeavesStore (not result.ok) (some "failed to apply NetworkManager policy", n')
            (finish w event event_id decision n') (record { left = after_it })
            (record { left = finish-IsStore w event event_id decision n' after_it }))))

selected_of :
    (w : System) (found : Option Event) (event_id decision : String) (n : Net)
    → IsStore n
    → IsStore
        (elim found as (λ x. Option String × Net) [
          | none ↦ (some ("unknown event: " <> event_id), n)
          | some event ↦ select_event w event event_id decision n
        ]).1
selected_of w none event_id decision n h = h
selected_of w (some event) event_id decision n h =
    (select_event-LeavesStore w event event_id decision n h).left

upstream_select-IsStore :
    (w : System) (event_id decision : String) (n : Net)
    → IsStore n
    → IsStore (upstream_select w event_id decision n).1
unfolding upstream_select
upstream_select-IsStore w event_id decision n h = elim (Bool-cases (not (is_choice decision))) [
  | inl b ↦ rw b h
  | inr b ↦ rw b (selected_of w (find_event event_id n.events) event_id decision n h)
]

-- From a store of 80 events at most, of which no two pending ones can be taken for one link, the scan,
-- the dispatcher hook and a decision of the user each leave such a store, whatever the commands answer.
pub network_events-IsStore :
    (w : System) (n : Net) (a b : String)
    → IsStore n
    → IsStore (network_events_json w n).1
      × (IsStore (phone_tether_guard_apply w a b n).1 × IsStore (upstream_select w a b n).1)
network_events-IsStore w n a b h = (
  network_events_json-IsStore w n h,
  (phone_tether_guard_apply-IsStore w a b n h, upstream_select-IsStore w a b n h),
)
