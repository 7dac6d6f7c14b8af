-- ===== src/Reconcile/Select.antt =====
-- The pods and services of one replica type, and the ports of its containers: pkg/core/pod.go and
-- pkg/core/service.go.
use kubecluster.Prelude.{ℤ, String, List, [], ◌∷◌, Dict, insert, filter, str_eq, if◌then◌else◌}
use kubecluster.Errors.{Error, Result, ok, err}
use kubecluster.Types.{Pod, Service, Container, ContainerPort, ReplicaSpec}
use kubecluster.Labels.{replica_type_label}
use kubecluster.Reconcile.Naming.{Ctx}

-- `labels.Set{ReplicaTypeLabel: replicaType}`
abbrev pub replica_type_selector : String → Dict String
replica_type_selector replica_type = (replica_type_label, replica_type) ∷ []

unfoldable pub filter_pods_for_replica_type : Ctx → List Pod → String → List Pod
filter_pods_for_replica_type ctx pods replica_type =
    filter (λ (p : Pod). ctx.selector_matches (replica_type_selector replica_type) p.labels) pods

unfoldable pub filter_services_for_replica_type : Ctx → List Service → String → List Service
filter_services_for_replica_type ctx services replica_type =
    filter (λ (s : Service). ctx.selector_matches (replica_type_selector replica_type) s.labels)
      services

-- The inner loop: ports by name; a later port of the same name wins.
abbrev pub collect_ports : Dict ℤ → List ContainerPort → Dict ℤ
collect_ports ports [] = ports
collect_ports ports (p ∷ ps) = collect_ports (insert p.name p.container_port ports) ps

-- The first container of the given name counts. A nil map is an empty one.
unfoldable pub find_ports : List Container → String → Result (Dict ℤ)
find_ports [] default_container_name = err (Error.other "failed to find the port")
find_ports (c ∷ cs) default_container_name =
    let rest = find_ports cs default_container_name in
    if str_eq c.name default_container_name then ok (collect_ports [] c.ports) else rest

-- core.GetPortsFromCluster
unfoldable pub get_ports_from_cluster : ReplicaSpec → String → Result (Dict ℤ)
unfolding find_ports
get_ports_from_cluster spec default_container_name =
    find_ports spec.template.spec.containers default_container_name
