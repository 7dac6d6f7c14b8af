-- ===== src/Control/Gang.antt =====
-- How the two gang schedulers mark a pod: DecoratePodTemplateSpec of
-- pkg/controller/control/podgroup_control.go.
use kubecluster.Prelude.{String, insert, str_eq, if◌then◌else◌}
use kubecluster.Types.{PodTemplate, KubeCluster}

-- The implementations of PodGroupControlInterface.
pub data PodGroupControl : Type 0 where
  volcano : PodGroupControl
  scheduler_plugins : String → PodGroupControl

pub get_scheduler_name : PodGroupControl → String
get_scheduler_name volcano = "volcano"
get_scheduler_name (scheduler_plugins name) = name

-- A scheduler that the user chose is kept.
abbrev with_scheduler : String → PodTemplate → PodTemplate
with_scheduler name template =
    if str_eq template.spec.scheduler_name ""
    then record template { spec = record template.spec { scheduler_name = name } }
    else template

-- The three keys are constants of volcano and of scheduler-plugins.
pub record GangKeys : Type 0 where
  pub kube_group_name_annotation_key : String
  pub task_spec_key : String
  pub pod_group_label : String

unfoldable pub decorate_pod_template_spec :
    GangKeys → PodGroupControl → PodTemplate → KubeCluster → String → PodTemplate
unfolding get_scheduler_name
decorate_pod_template_spec keys volcano template cluster rtype =
    let t = with_scheduler (get_scheduler_name volcano) template in
    record t {
      annotations =
          insert keys.task_spec_key rtype
            (insert keys.kube_group_name_annotation_key cluster.name t.annotations);
    }
decorate_pod_template_spec keys (scheduler_plugins name) template cluster rtype =
    let t = with_scheduler name template in
    record t { labels = insert keys.pod_group_label cluster.name t.labels }
