-- ===== src/Management/Allocation.antt =====
-- What the pages show of the allocation of shards, before and after it is changed.
use secan.Base.{◌≡◌, refl, ap, ◌∙◌, String, Option, none, some, ◌===◌}
use secan.Json.{Value, null, flag, number, text, array, object, end, lookup, chain, nullish}
use secan.Client.Requests.{Request, Method}
use secan.Client.Queries.{proxy_request}
use secan.Management.{
  ClusterSettings, cluster_settings_of, enable_of, allocation_state, shard_allocation_enabled,
}
use secan.Management.Requests.{
  AllocationMode, all, primaries, new_primaries, none_at_all, mode_text, transient_setting,
  set_allocation,
}

nullish-kept : (o d : Option Value) (t : String) → enable_of o ≡ some (text t) → nullish o d ≡ o
nullish-kept none d t e = absurd (cc e)
nullish-kept (some null) d t e = absurd (cc e)
nullish-kept (some (flag b)) d t e = refl
nullish-kept (some (number n)) d t e = refl
nullish-kept (some (text s)) d t e = refl
nullish-kept (some (array xs)) d t e = refl
nullish-kept (some (object fs)) d t e = refl

-- An answer that has the setting is an object, and its part is kept.
cluster_settings_of-transient :
    (answer : Value) (t : String)
    → enable_of (chain (some answer) "transient") ≡ some (text t)
    → enable_of (cluster_settings_of (some answer)).transient ≡ some (text t)
unfolding cluster_settings_of
cluster_settings_of-transient null t e = absurd (cc e)
cluster_settings_of-transient (flag b) t e = absurd (cc e)
cluster_settings_of-transient (number n) t e = absurd (cc e)
cluster_settings_of-transient (text s) t e = absurd (cc e)
cluster_settings_of-transient (array xs) t e = absurd (cc e)
cluster_settings_of-transient (object fs) t e =
    ap enable_of (nullish-kept (lookup "transient" fs) (some (object end)) t e) ∙ e

-- The modes are what the two pages know, and they agree on them.
allocation-shown :
    (mode : AllocationMode) (s : ClusterSettings)
    → enable_of s.transient ≡ some (text (mode_text mode))
    → (allocation_state (some s) ≡ mode_text mode)
      × (shard_allocation_enabled (some s) ≡ (mode_text mode === "all"))
unfolding allocation_state shard_allocation_enabled
allocation-shown all s e = rw e (refl, refl)
allocation-shown primaries s e = rw e (refl, refl)
allocation-shown new_primaries s e = rw e (refl, refl)
allocation-shown none_at_all s e = rw e (refl, refl)

-- The server takes a request in the state of its settings; after a PUT of the transient setting to the
-- settings' address it nests the setting under its name. Then, once the settings are asked for again
-- after the mode was set, whatever they were, also where a persistent setting says something else: the header shows the mode,
-- and the page of the shards takes the allocation for enabled exactly if the mode is the first.
pub set_allocation-shows :
    (apply : Request → Value → Value)
    → ((mode : AllocationMode) (before : Value)
        → let request =
            proxy_request Method.put "/_cluster/settings"
              (some (transient_setting "cluster.routing.allocation.enable" (mode_text mode))) in
          enable_of (chain (some (apply request before)) "transient")
          ≡ some (text (mode_text mode)))
    → (mode : AllocationMode) (before : Value)
    → let settings = some (cluster_settings_of (some (apply (set_allocation mode) before))) in
      (allocation_state settings ≡ mode_text mode)
      × (shard_allocation_enabled settings ≡ (mode_text mode === "all"))
unfolding set_allocation
set_allocation-shows apply nests mode before =
    let answer = apply (set_allocation mode) before in
    allocation-shown mode (cluster_settings_of (some answer))
      (cluster_settings_of-transient answer (mode_text mode) (nests mode before))
