-- ===== src/Scheduler/Runtime/Filter.antt =====
-- What a run of the filter plugins answers.
use kubeadmiral.Base.{
  ◌≡◌, ◌↔◌, refl, String, Option, none, some, true, false, List, [], ◌∷◌, ◌++◌, arith, All,
}
use kubeadmiral.Scheduler.Types.{
  Cluster, SchedulingUnit, Result, is_success, failed_plugin_of, FilterPlugin, set_failed_plugin,
}
use kubeadmiral.Scheduler.Runtime.{run_filter_plugins}

module _ (su : SchedulingUnit) (cluster : Cluster) where
  -- The plugin lets the cluster pass.
  abbrev pub Passes : FilterPlugin → Type 0
  Passes pl = is_success (pl.filter su cluster) ≡ true

  set_failed_plugin-fails :
      (name : String) (r : Option Result)
      → is_success r ≡ false
      → (is_success (set_failed_plugin name r) ≡ false)
        × (failed_plugin_of (set_failed_plugin name r) ≡ name)
  set_failed_plugin-fails name none h = cc
  set_failed_plugin-fails name (some r) h = (h, refl)

  -- A run succeeds exactly when every plugin lets the cluster pass.
  pub run_filter_plugins-is_success :
      (pls : List FilterPlugin)
      → (is_success (run_filter_plugins pls su cluster) ≡ true) ↔ All Passes pls
  unfolding run_filter_plugins
  run_filter_plugins-is_success [] = (λ h. tt, λ h. refl)
  run_filter_plugins-is_success (pl ∷ pls) = ground (
    arith,
    run_filter_plugins-is_success pls,
    set_failed_plugin-fails pl.name (pl.filter su cluster),
  )

  -- Where a plugin rejects the cluster that every plugin before it lets pass, the run fails,
  -- and the result names that plugin.
  pub run_filter_plugins-failed :
      (before : List FilterPlugin) (pl : FilterPlugin) (after : List FilterPlugin)
      → All Passes before
      → is_success (pl.filter su cluster) ≡ false
      → (is_success (run_filter_plugins (before ++ pl ∷ after) su cluster) ≡ false)
        × (failed_plugin_of (run_filter_plugins (before ++ pl ∷ after) su cluster) ≡ pl.name)
  unfolding run_filter_plugins
  run_filter_plugins-failed [] pl after h f =
      ground (arith, set_failed_plugin-fails pl.name (pl.filter su cluster))
  run_filter_plugins-failed (b ∷ before) pl after h f =
      ground (arith, run_filter_plugins-failed before pl after h.1 f)
