-- ===== src/Lib.antt =====
-- RabbitMQ cluster operator: the controllers of the custom resource RabbitmqCluster.
--
-- One run of the operator (controllers/rabbitmqcluster_controller.go) reads the custom resource and goes
-- through a chain of steps: deletion, pause, defaults, conditions, TLS, queue rebalance, scale down,
-- child resources, restart, status, commands in the pods. A step returns a result that continues or
-- ends the run; a deferred call writes the status if it has changed. The steps share the in-memory
-- cluster, and speak to the API server and to the pods.
--
-- Files and the code that they are about:
--   Metadata               internal/metadata/label.go, internal/metadata/annotation.go
--   Cluster                api/v1beta1/rabbitmqcluster_types.go, api/v1beta1/rabbitmqcluster_status.go;
--                          Cluster.Override has the types of spec.override
--   Kube                   the Kubernetes objects and errors that the code uses, and the tests of
--                          controllers/utils.go on StatefulSets
--   Result                 controllers/result/result.go
--   Status                 internal/status
--   Ports                  internal/constant/ports.go
--   Merge                  mergePorts of internal/resource/utils.go, and the shape that it shares with the
--                          other merges; Merge.Reference has the fold that they implement
--   Builders               internal/resource, the builders of the child resources:
--   Builders.Text          the trimming of texts
--   Builders.Meta          the metadata of a child, and chains of calls that may fail
--   Builders.Config        configmap.go: the configuration and the test whether a restart is required
--   Builders.Services      service.go, headless_service.go, the override of the service in utils.go
--   Builders.Secrets       default_user_secret.go, erlang_cookie.go
--   Builders.Access        role.go, role_binding.go, service_account.go, the builder of
--                          rabbitmq_plugins.go
--   Builders.Steady        the second Update of the small children (that of the StatefulSet is in
--                          Builders.StatefulSet.Settles, of the merges in Merge.Settles)
--   Builders.Catalogue     rabbitmq_resource_builder.go: the list of the builders
--   Builders.Pods          statefulset.go: volumes, containers and the annotations for Vault; the sorts of
--                          utils.go
--   Builders.StatefulSet   statefulset.go: Build and Update; the override of the StatefulSet in utils.go
--   Server                 the API server and the pods: the calls, their answers, the state of a run
--   Scaling                internal/scaling/scaling.go
--   Controller.Finalizer   controllers/reconcile_finalizer.go
--   Controller.Guards      controllers/reconcile_pause.go, reconcile_scale_down.go, reconcile_tls.go and
--                          reconcile_operator_defaults.go
--   Controller.Annotations controllers/reconcile_rabbitmq_configurations.go, controllers/utils.go
--   Controller.StatusSteps controllers/reconcile_status.go
--   Controller.Cli         controllers/reconcile_cli.go, the list of internal/resource/rabbitmq_plugins.go
--   Controller.Resources   controllers/reconcile_resources.go, controllers/reconcile_persistence.go; its
--                          Calls and Loop are about the calls of the loop
--   Controller.Children    the loop of reconcileResources with the builders of internal/resource as values of
--                          their interface; Children.Written, Overrides, Places and Visible are about
--                          the metadata and the place of what they write
--   Controller.Watches     SetupWithManager and addResourceToIndex of
--                          controllers/rabbitmqcluster_controller.go
--   Controller.Reconcile   the rest of controllers/rabbitmqcluster_controller.go
--   Controller.Equality    the comparisons by reflect.DeepEqual of the status
--   Setup.Text             the conversions of texts of the Go library that main.go uses
--   Setup.Options          main.go, pkg/profiling/pprof.go
--   Prelude                shared names: tests, maps, lists, decimal numbers
--   Examples               the theorems at concrete inputs
--
-- A function of the source keeps its name in snake case. A step is an action, a function from the state
-- of the run (the cluster, and the history of the calls, the latest first) to a result and a state.
-- What a call answers is a function of the history, so a `Server` stands for any API server, other
-- actors included, and for any failure. Logging is left out; events are calls.
--
-- A builder is a pair of functions: `build_...` is its Build, and `update_...` its Update, from the
-- object to the changed one. The loop of Controller.Resources takes builders as values of their
-- interface, over objects of any type; Controller.Children makes such values of the builders that the
-- source has, and runs the loop over them. The builders share the cluster with the controller: what
-- Update of the service writes into it (the default of its type) is the field `touch` of the builder.
--
-- main.go is a function from the environment to the options of the manager and the settings of the
-- controller, or to the error with which the process exits. A `time.Duration` is an int64 in bits, a
-- number below 2 ^ 64, with its product by a second taken modulo 2 ^ 64.
--
-- Bounds: the loops of the source run over lists or over a count, and are structural recursion; a
-- retry on an error takes the number of tries behind the first from the server, and the wait for a
-- deletion has the 10 rounds of the source. The sorts of utils.go are one pass, with the length of the
-- list as its rounds. Instants are whole seconds, storage is a number of bytes, and limits of memory
-- are not negative. A nil map or slice is an empty list, but the image pull secrets, the data of a
-- secret and the parts of an override keep the difference, on which the code depends. A panic of the source is a missing
-- result, which Controller.Children makes an error, as the manager does.
--
-- Parameters: the ini library (Builders.Config.Ini, whose laws are Builders.Config.Restart.IniLaws),
-- the strategic merge patch of a spec with its way through JSON (one function, with one error for all
-- its calls), SetControllerReference, the semantic comparison of two config maps, and random bytes
-- with their encoding; the manager of controller-runtime (Setup.Options.Manager), and how an object of
-- each type is written as a text and read back (Controller.Children.Kind). Affinity, tolerations and
-- the specs of an override are texts.
--
-- Not modelled: the flags, the logger and the scheme of main.go, whose label requirement cannot fail,
-- api/v1beta1/groupversion_info.go and tools/tools.go, which hold declarations only, the executor of
-- pods (controllers/pod_executor.go), which streams a command over the network, generated code, the
-- system tests, and the log.
pub mod Prelude
pub mod Metadata
pub mod Cluster
pub mod Kube
pub mod Result
pub mod Status
pub mod Ports
pub mod Merge
pub mod Server
pub mod Scaling
pub mod Builders
pub mod Setup
pub mod Controller
pub mod Examples
