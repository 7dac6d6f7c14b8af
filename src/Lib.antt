-- ===== src/Lib.antt =====
-- The controller of kubecluster: clusters of pods and services with one config map, of the types slurm
-- and PBS Pro, on Kubernetes.
--
-- A reconciliation reads a KubeCluster, lists its pods and services, creates what is missing, deletes what
-- is too much or has failed, and writes the status. What was asked for is remembered as expectations per
-- replica type, which the watches lower when the objects show up.
--
-- Types: the types of apis/kubecluster.org/v1alpha1 (cluster_types.go, common_types.go) and the parts of
--   pods, services and config maps that the code reads.
-- Conditions: pkg/util/status.go. Conditions/Invariant and Conditions/Updates have what holds of them.
-- Strings: what the code uses of Go's strings and strconv. Labels: pkg/util/labels/labels.go, the label
--   keys, and GenGeneralName of pkg/core/utils.go.
-- Slices: GetPodSlices and CalculatePodSliceSize of pkg/core/pod.go and their twins in
--   pkg/core/service.go, which are one definition over the place of the labels.
-- Expectation: pkg/controller/expectation. The store is the parameter Cache, client-go's thread-safe map
--   with its laws.
-- World: the state of a reconciliation, which is the cluster (whose status the code writes) and every
--   request and note made so far, and the environment Env, which answers requests and tells the time.
--   World/Keeps is the rule that a method keeps a predicate on the requests, with a lemma for each step.
-- Control: pkg/controller/control, the controls of pods, services, config maps and pod groups.
-- Claims: controller_ref_manager.go there, which adopts and releases pods and services.
-- Schema: the interface ClusterSchemaReconciler of pkg/common/schema.go as a record. Schema/Status has
--   UpdateClusterStatus of slurm_schema.go and pbspro_schema.go in pkg/controller/cluster_schema,
--   Schema/Checks the validation and the defaults of apis/kubecluster.org/v1alpha1, and Schema/Registry
--   the flag that chooses the schemas.
-- Slurm: pkg/controller/cluster_schema/slurm_schema. Slurm/Ports, Parsing and Drawn are the ports that a
--   cluster names, that slurm.conf names and that are drawn, Conf and Resources the text of slurm.conf,
--   Entrypoints the scripts, Random the function RandStr of pkg/util/random.go, ConfigMaps ReconcileConfigMap, HostNetwork UpdateConfigMap, Environment and
--   Volumes what is added to a pod, and Pods is SetClusterSpec with the schema as the controller has it.
-- Pbspro: pkg/controller/cluster_schema/pbspro_schema, in the same way.
-- Reconcile: pkg/controller/ctrlcommon with pkg/core and what it calls of
--   pkg/controller/cluster_controller.go. Reconcile/Cluster is ReconcileKubeCluster, Pods, Services and
--   ConfigMaps the three it calls, PodCreation is CreateNewPod, Gang the pod groups with
--   Gang/Resources the function CalcPGMinResources, Limits the backoff limit and the deadline, CleanUp
--   the end of a cluster, Objects the reads and writes of cluster_controller.go, Select and Status the
--   filters and counters of pkg/core, Naming the owner reference and labels, Equality the comparison of
--   two statuses. Reconcile/Entry is Reconcile of cluster_controller.go, which fetches a cluster, checks
--   it and hands it over. Reconcile/Rules walks through all of it once, for any predicate on the
--   requests; the modules Accounting, Deletions, Finished and Policies give it theirs.
-- Watch: the predicates of pkg/common/util (reconciler.go, reconcile_generic.go). Watch/Announced has the
--   requests that follow a raised expectation, Watch/Labelled the labels of a pod up to its request,
--   Watch/Observed the key of what was sent, and Watch/Keys brings them together. Watch/Gate is the gate
--   before a reconciliation, needReconcile of cluster_controller.go with it.
-- Tests: examples at concrete inputs.
--
-- How the code is written down. A method is a function of the state to a result and a state: a value, an
-- error, or a panic, which stands for a nil pointer, an index out of range or a failed assertion. What was
-- written before an error stays. Numbers of the types int32 and int64 wrap. A map is an association list,
-- and a range over a map goes in the list's order; the theorems hold for every order. A condition type is
-- one of the five that the code names. ToLower lowers the ASCII letters, which are all that a DNS label
-- may hold, and EqualFold compares two lowered texts. A stable sort stands for sort.Sort and sort.Slice.
--
-- Fuel: itoa divides a number n at most n + 1 times, and each division makes it smaller; add_pods_of
-- counts down the replicas of a type; gen_slurm_random_port is given the number of draws of a second port,
-- and is proved to end when one of them differs from the first; rand_str is given the number of rounds,
-- and is proved to end when they give enough letters. All other loops are over lists.
-- Go's make of the slices panics beyond 2^48 bytes, the address space of its runtime on 64-bit machines.
--
-- Parameters, as their code stands elsewhere: the API server and the clock (Env), the cache, the keys of
-- pod group annotations, KeyFunc, the matching of label selectors, metav1.IsControlledBy and
-- GetControllerOf, the rules for DNS labels, and the Libraries of the schemas: quantities and the quota package, random numbers,
-- files, Go templates, YAML and the flags of config.go.
--
-- Not modelled: metrics and logs, which the code never reads; cmd/main.go, SetupWithManager and the
-- constructors, which put the parts together; pkg/client, pkg/util/k8sutil/client.go and the generated
-- code; pkg/util/quota, a copy of the package of Kubernetes; the disruption budgets, which nothing calls.
mod Prelude
pub mod Claims
pub mod Slurm
pub mod Pbspro
pub mod Errors
pub mod Types
pub mod Conditions
pub mod Strings
pub mod Labels
pub mod Slices
pub mod Expectation
pub mod World
pub mod Control
pub mod Schema
pub mod Reconcile
pub mod Watch
mod Tests
