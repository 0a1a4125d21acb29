-- ===== src/Lib.antt =====
-- KubeAdmiral, the multi-cluster orchestrator: a model of the parts that decide where a workload
-- runs and what is recorded of it.
--
-- A user's object is wrapped in a federated object. Its controllers take turns in the order of its
-- pending controllers. The scheduler picks clusters for it and writes them into its placements,
-- and the sync controller dispatches it to these clusters and writes down how that went.
--
-- Planner models pkg/controllers/scheduler/planner/planner.go, which divides replicas among
-- clusters. Preferences has the preferences and their order (getNamedPreferences, byWeight),
-- Desired the distribution by minimums and weights (getDesiredPlan), Scale the plan that avoids
-- moving replicas (scaleUp, scaleDown, Plan). The planner is called by the replica plugin of the
-- scheduler.
--
-- BinPack models the plugin in pkg/controllers/scheduler/framework/plugins/preferencebinpack,
-- which fills clusters in the order of their priorities: BinPack itself has planner.go, and Plugin
-- has the ReplicaScheduling of preference_bin_pack.go that calls it.
--
-- Scheduler models pkg/controllers/scheduler. Types has what the framework passes around
-- (framework/types.go, framework/interface.go), Taints the plugin TaintToleration with its helpers
-- in framework/util.go, MaxCluster the plugin of that name, Runtime the runs of the plugins
-- (framework/runtime/framework.go), and Generic the algorithm that calls them
-- (core/generic_scheduler.go). Filters has the filter plugins of framework/plugins that
-- GetDefaultEnabledPlugins of pkg/apis/core/v1alpha1/extensions_schedulingprofile.go names, Unit
-- what schedulingunit.go reads from an object and its policy into the unit that is scheduled, and
-- Triggers what schedulingtriggers.go compares and writes to decide whether a scheduling is due.
--
-- Override models pkg/controllers/override, which turns an override policy into patches: StringMap
-- has annotationslabelspatch.go, Entrypoint commandargspatch.go, and Containers the loop of that
-- file over containers, with the paths of util.go. The loop is written once for any kind of value.
--
-- FedObject models the placements and overrides of
-- pkg/apis/core/v1alpha1/extensions_federatedobject.go, Sync the status of
-- pkg/controllers/sync/status/status.go, and Util the packages pkg/util/bijection,
-- pkg/util/multimap, pkg/util/annotation, pkg/util/pendingcontrollers, pkg/util/finalizers and
-- pkg/util/clusterselector. PolicyCount models pkg/controllers/policyrc/counter.go, which counts
-- the objects that refer to a policy, and Follower
-- pkg/controllers/follower/bidirectional_cache.go, which relates leaders to their followers.
--
-- A definition has the name of the Go function in snake case. A method that changes its receiver
-- takes the state and returns it with its answer; a loop over a slice is recursion on the list,
-- and a variable that the loop changes is an argument. A Go map is an association list: what holds
-- for every list holds for every order in which Go may walk the map. A nil pointer or a missing
-- value is `none`. A set of k8s.io/apimachinery is a map to empty structs, here the list of its
-- keys. A sort keeps the order of equal elements, which Go leaves open. A lock held for a whole
-- method makes the method one step.
--
-- Counts, scores and generations are `int64` in the source. BinPack and the scheduling unit have
-- integers for them (Base.Int), and sums are taken not to overflow 2 ^ 63. Planner, MaxCluster,
-- the scores, Sync and PolicyCount have natural numbers: the planner leaves negative counts to its
-- caller. Where such code subtracts counts that nothing orders, the model tests and has no result.
-- Products of a count and a weight are taken not to overflow 2 ^ 63. The distribution loop of
-- getDesiredPlan runs on fuel, one more than there are preferences: each pass places all that
-- remains or drops a preference.
--
-- Parameters: the hash of a name and a key (hash/fnv, whose Write returns no error), a
-- toleration's test of a taint (k8s.io/api), the JSON encoding of the pending controllers, of the
-- triggers and of the annotations of a federated object, of what an overrider sets, the reading of
-- a pod spec, the selectors over labels and fields (k8s.io/apimachinery), the plugins of a
-- framework, the clock, and the equality of override patches. A message is the list of what is
-- formatted into it. Metrics and logging are left out.
--
-- Not modelled: the plugins of the scheduler that rank clusters or weigh replicas (rsp,
-- clusterresources, prioritysort, katalyst), whose weights are floating point or whose resources
-- are quantities of k8s.io/apimachinery; the hashing of the triggers, whose hashes are given; the
-- labels and resource requests of a scheduling unit, of which only whether the requests can be
-- read is kept; the scheduler's reconcile loop; the overriders of images, environments and JSON
-- patches, and the choice of override policies; the sync controller's dispatch and versions;
-- automigration; the federate, follower, cluster, policy and HPA controllers; the informers, the
-- generated clients, the API servers, the code under pkg/lifted, and start-up. Much of these is
-- input and output on the API server.
pub mod Base
pub mod Planner
pub mod BinPack
pub mod Scheduler
pub mod FedObject
pub mod Override
pub mod Sync
pub mod PolicyCount
pub mod Follower
pub mod Util
