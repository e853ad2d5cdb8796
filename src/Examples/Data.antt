-- ===== src/Examples/Data.antt =====
-- A cluster, its objects, and an API server that knows them.
use rabbitmq_operator.Prelude.{true, false, none, some, [], ◌∷◌}
use rabbitmq_operator.Cluster.{RabbitmqCluster, ClusterSpec, ClusterStatus}
use rabbitmq_operator.Kube.{
  ok, err, api, not_found, ObjectKey, StatefulSet, PersistentVolumeClaim, Secret, Object,
}
use rabbitmq_operator.Server.{Server, State}
use rabbitmq_operator.Status.{statefulset, endpoints, set_conditions}
use rabbitmq_operator.Controller.Guards.{Defaults}
use rabbitmq_operator.Controller.Annotations.{other_builder}
use rabbitmq_operator.Controller.Resources.{Builder}
use rabbitmq_operator.Controller.StatusSteps.{status_of_run}

abbrev pub spec : ClusterSpec
spec = record {
  disable = false;
  replicas = 3;
  tls = record { secret_name = "tls"; ca_secret_name = "ca"; disable_non_tls_listeners = true };
  rabbitmq = record {
    advanced_config = "";
    env_config = "";
    additional_config = "";
    erlang_inet_config = "";
    additional_plugins = "rabbitmq_mqtt" ∷ "rabbitmq_prometheus" ∷ [];
  };
  image = "";
  image_pull_secrets = none;
  affinity = none;
  tolerations = [];
  resources = record { limits = []; requests = [] };
  memory_limit = none;
  service = record { service_type = "ClusterIP"; annotations = [] };
  persistence = record { storage = 20; storage_class_name = none };
  secret_backend = record { vault = none; external_secret = "" };
  override = record { service = none; statefulset = none };
  delay_start_seconds = none;
  skip_post_deploy_steps = false;
  termination_grace_period_seconds = 600;
}

abbrev pub status : ClusterStatus
status = record {
  replicas = 3;
  conditions = [];
  default_user = none;
  binding = none;
  observed_generation = 0;
}

abbrev pub cluster : RabbitmqCluster
cluster = record {
  name = "rabbit";
  namespace = "prod";
  uid = "u1";
  generation = 2;
  labels = [];
  annotations = [];
  finalizers = "deletion.finalizers.rabbitmqclusters.rabbitmq.com" ∷ [];
  deletion_timestamp = none;
  spec = spec;
  status = status;
}

abbrev pub paused_cluster : RabbitmqCluster
paused_cluster = record cluster { labels = ("rabbitmq.com/pauseReconciliation", "true") ∷ [] }

abbrev pub without_tls : RabbitmqCluster
without_tls = record cluster {
  spec = record spec {
    tls = record { secret_name = ""; ca_secret_name = ""; disable_non_tls_listeners = false };
  };
}

abbrev pub sts : StatefulSet
sts = record {
  name = "rabbit-server-0";
  namespace = "prod";
  uid = "s1";
  controller_uid = some "u1";
  annotations = [];
  template_annotations = [];
  selector = [];
  replicas = some 1;
  ready_replicas = 1;
  current_revision = "r1";
  update_revision = "r1";
  first_container = record { memory_limit = 0; memory_request = 0 };
  volume_claim_templates = record { name = "persistence"; storage = 10 } ∷ [];
}

abbrev pub foreign_sts : StatefulSet
foreign_sts = record sts { controller_uid = some "u2" }

abbrev pub key : ObjectKey
key = record { namespace = "prod"; name = "rabbit-server-0" }

abbrev pub claim : PersistentVolumeClaim
claim = record { name = "persistence-rabbit-server-0-0"; namespace = "prod"; storage = 10 }

abbrev pub secret : Secret
secret = record { data_keys = ("tls.crt", "") ∷ ("tls.key", "") ∷ ("ca.crt", "") ∷ [] }

abbrev pub server : Server
server = record {
  now = λ h. 100;
  rfc3339 = λ n. "2026-01-01T00:00:00Z";
  parse_rfc3339 = λ t. some 10;
  retries = 4;
  on_get_cluster = λ h k. ok paused_cluster;
  on_update_cluster = λ h c. ok c;
  on_update_status = λ h c. ok c;
  on_list_statefulsets = λ h n l. ok (sts ∷ []);
  on_get_statefulset = λ h k. ok sts;
  on_update_statefulset = λ h s. none;
  on_delete_statefulset = λ h k o. none;
  on_get_pvc = λ h k. ok claim;
  on_update_pvc = λ h n p. none;
  on_list_pods = λ h l. ok [];
  on_update_pod = λ h p. none;
  on_get_endpoints = λ h k. ok (record { subsets = 1 ∷ [] });
  on_get_secret = λ h k. ok secret;
  on_get_config_map =
      λ h k. ok (record { name = k.name; namespace = k.namespace; annotations = [] });
  on_update_config_map = λ h c. none;
  on_get_object = λ h t k. err (api not_found "not found");
  on_create_object = λ h o. none;
  on_update_object = λ h o. none;
  semantic_equal = λ a b. true;
  on_exec_in_pod = λ h n p c. none;
}

-- The same without any StatefulSet.
abbrev pub empty_server : Server
empty_server = record server {
  on_get_statefulset = λ h k. err (api not_found "not found");
  on_list_statefulsets = λ h n l. ok [];
}

abbrev pub start : State
start = record { rmq = cluster; calls = [] }

abbrev pub defaults : Defaults
defaults = record {
  rabbitmq_image = "rabbitmq:3.13";
  user_updater_image = "updater:1";
  split_pull_secrets = "s1" ∷ "" ∷ [];
  control_rabbitmq_image = false;
}

-- A cluster with one replica for which nothing is left to do but the end of the run.
abbrev base : RabbitmqCluster
base = record cluster {
  spec = record spec { replicas = 1; image = "rabbitmq:3.13"; image_pull_secrets = some [] };
  status = record status { replicas = 1 };
}

abbrev pub settled_cluster : RabbitmqCluster
settled_cluster = record base {
  status = record (status_of_run base) {
    conditions =
        (set_conditions 100
          (statefulset (some sts) ∷ endpoints (some (record { subsets = 1 ∷ [] })) ∷ [])
          base.status).conditions;
  };
}

abbrev pub settled : State
settled = record { rmq = settled_cluster; calls = [] }

-- A child that does not exist yet.
abbrev pub object : Object
object = record {
  type_name = "*v1.Service";
  key = record { namespace = "prod"; name = "rabbit" };
  labels = [];
  owner_references = [];
  claims = none;
  content = "";
}

abbrev pub builder : Builder
builder = record {
  kind = other_builder;
  restart = true;
  build = ok object;
  update = λ restart o. ok (o, restart);
  touch = λ rmq. rmq;
}
