-- ===== src/Labels.antt =====
-- The labels of pods and services: pkg/util/labels/labels.go, the label keys of
-- apis/kubecluster.org/v1alpha1, and the names that pkg/core/utils.go builds.
use Prim.Native.String.{◌++◌}
use kubecluster.Prelude.{
  ℕ, ◌^◌, ◌<◌, ℤ, pos, String, ◌≡◌, Option, none, some, Dict, [], lookup, insert,
  lookup-insert_self,
}
use kubecluster.Errors.{Result, ok, err, Error}
use kubecluster.Strings.{to_lower, replace_slashes, itoa, atoi}
use kubecluster.Strings.RoundTrip.{atoi-itoa}

abbrev controller_name_label : String
controller_name_label = "kubeclusetr.org/controller-name"

abbrev cluster_name_label : String
cluster_name_label = "kubeclusetr.org/clusetr-name"

abbrev pub cluster_type_label : String
cluster_type_label = "kubeclusetr.org/clusetr-type"

abbrev pub replica_index_label : String
replica_index_label = "kubeclusetr.org/replica-index"

abbrev pub replica_type_label : String
replica_type_label = "kubeclusetr.org/replica-type"

abbrev cluster_role_label : String
cluster_role_label = "kubeclusetr.org/clusetr-role"

parse_index : Option String → Result ℤ
parse_index none = err (Error.other "replica index label not found")
parse_index (some v) = atoi v

unfoldable pub replica_index : Dict String → Result ℤ
unfolding parse_index
replica_index labels = parse_index (lookup replica_index_label labels)

unfoldable pub set_replica_index_str : Dict String → String → Dict String
set_replica_index_str labels idx = insert replica_index_label idx labels

unfoldable pub set_replica_index : Dict String → ℕ → Dict String
unfolding set_replica_index_str
set_replica_index labels idx = set_replica_index_str labels (itoa idx)

unfoldable pub gen_replica_type_label : String → String
gen_replica_type_label rtype = to_lower rtype

unfoldable pub set_replica_type : Dict String → String → Dict String
set_replica_type labels rt = insert replica_type_label rt labels

unfoldable pub set_cluster_role : Dict String → String → Dict String
set_cluster_role labels role = insert cluster_role_label role labels

unfoldable pub set_cluster_type : Dict String → String → Dict String
set_cluster_type labels cluster_type = insert cluster_type_label cluster_type labels

unfoldable pub gen_labels : String → String → Dict String
gen_labels controller_name cluster_type =
    insert controller_name_label controller_name
      (insert cluster_name_label (replace_slashes cluster_type) [])

-- core.GenGeneralName
unfoldable pub gen_general_name : String → String → String → String
gen_general_name cluster_name rtype index =
    replace_slashes (cluster_name ++ "-" ++ to_lower rtype ++ "-" ++ index)

-- The index that `SetReplicaIndex` writes is the one that `ReplicaIndex` reads.
pub replica_index-set_replica_index :
    (labels : Dict String) (n : ℕ)
    → n < 2 ^ 63
    → replica_index (set_replica_index labels n) ≡ ok (pos n)
unfolding replica_index set_replica_index
replica_index-set_replica_index labels n h =
    rw (lookup-insert_self replica_index_label (itoa n) labels) (atoi-itoa n h)
