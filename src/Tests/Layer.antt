-- ===== src/Tests/Layer.antt =====
-- The theorem on the removal of the control layer, at concrete data.
use proxy_gateway_console_pu.LinuxLifecycle.Removal.{
  four_paths, IsRemoval, Applied, uninstall_control_layer-Applied,
}
use proxy_gateway_console_pu.Json.{nil}
use proxy_gateway_console_pu.Prelude.{
  pos, some, if◌then◌else◌, ◌==◌, inr, refl, true, Bool-cases, inl,
}
use proxy_gateway_console_pu.Outcome.{os_error, raised, ok}
use proxy_gateway_console_pu.RuntimeLauncher.Launch.{child_state_path, children_of}
use proxy_gateway_console_pu.SessionStore.Returns.{Returns}
use proxy_gateway_console_pu.Tests.Sample.{host, no_files}
use proxy_gateway_console_pu.GatewayAgent.Stop.{store_of, Kills, HasChildren, IsLocked}
use proxy_gateway_console_pu.LinuxLifecycle.{Layer, uninstall_control_layer}

-- rmdir of everything that is not in the runtime directory fails.
abbrev layer : Layer
layer = record {
  home = "/home/u";
  config_home = "/home/u/.config";
  exists = λ w p. true;
  remove = λ p w.
      if p == "/run/gateway"
      then (ok true, no_files)
      else (raised (os_error "PermissionError" (some (pos 13)) "denied"), w);
}

layer-IsRemoval : IsRemoval layer
layer-IsRemoval = record {
  shrinks = λ p w q. elim (Bool-cases (p == "/run/gateway")) [
    | inl e ↦ inr (rw e refl)
    | inr e ↦ inl (rw e refl)
  ];
  answers = λ p w. elim (Bool-cases (p == "/run/gateway")) [
    | inl e ↦ inl (true, rw e refl)
    | inr e ↦ inr ("PermissionError", some (pos 13), "denied", rw e refl)
  ];
}

kills : Kills host
kills pid = inl (true, refl)

children : HasChildren host no_files
unfolding children_of child_state_path
children = (nil, refl, tt)

uninstall_control_layer-Applied_example :
    Returns (uninstall_control_layer layer host true) (store_of host no_files) (λ report u.
      IsLocked host u.world × Applied layer (four_paths layer host.dirs.default_dir) report)
uninstall_control_layer-Applied_example =
    uninstall_control_layer-Applied host layer layer-IsRemoval refl no_files kills children
