-- ===== src/Reconcile/Naming.antt =====
-- Keys, owner references and labels of what belongs to a cluster: pkg/controller/ctrlcommon/controller.go
-- and pkg/common/controller.go.
use Prim.Native.String.{◌++◌}
use kubecluster.Prelude.{String, Bool, true, Option, some, Dict}
use kubecluster.Types.{OwnerReference, KubeCluster, kube_cluster_kind}
use kubecluster.Labels.{gen_labels}
use kubecluster.Errors.{Result}
use kubecluster.World.{Env}
use kubecluster.Schema.{Schema}
use kubecluster.Control.{PodGroupControl, GangKeys}

-- common.ControllerName
abbrev pub controller_name : String
controller_name = "kubecluster-controller"

-- What a ClusterController holds: the environment, the schema of the cluster's type, and the gang
-- scheduler if one is configured.
pub record Ctx : Type 0 where
  pub env : Env
  pub schema : Schema
  pub gang : Option PodGroupControl
  pub gang_keys : GangKeys
  -- KeyFunc, client-go's DeletionHandlingMetaNamespaceKeyFunc.
  pub key_func : KubeCluster → Result String
  -- Does the selector of a set of labels match these labels?
  pub selector_matches : Dict String → Dict String → Bool
  -- metav1.IsControlledBy: is the owner this cluster?
  pub is_controlled_by : Option OwnerReference → KubeCluster → Bool

unfoldable pub gen_owner_reference : KubeCluster → OwnerReference
gen_owner_reference cluster = record {
  api_version = "kubecluster.org/v1alpha1";
  kind = kube_cluster_kind;
  name = cluster.name;
  uid = cluster.uid;
  controller = some true;
  block_owner_deletion = some true;
}

-- ClusterController.GenLabels
unfoldable pub gen_cluster_labels : String → Dict String
unfolding gen_labels
gen_cluster_labels cluster_type = gen_labels controller_name cluster_type

-- util.NewReason
unfoldable pub new_reason : String → String → String
new_reason kind reason = kind ++ reason
