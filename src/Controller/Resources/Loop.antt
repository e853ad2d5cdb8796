-- ===== src/Controller/Resources/Loop.antt =====
-- Which calls the loop over the child resources of controllers/reconcile_resources.go makes.
use rabbitmq_operator.Prelude.{
  ℕ, String, Bool, true, false, Option, none, some, List, [], ◌∷◌, ◌≡◌, ap, ◌∙◌, Option-cases, inl,
  inr, All, subst, refl, ◌⊎◌,
}
use rabbitmq_operator.Kube.{Error, ok, ObjectKey, ClaimTemplate, Object, ConfigMap, StatefulSet}
use rabbitmq_operator.Result.{
  ReconcileResult, continue_reconcile, done, error_out, call_back_soon, call_back_soon_error,
}
use rabbitmq_operator.Server.{
  Call, Server, Act, pure, gets, get_statefulset, delete_statefulset, get_pvc, update_pvc, sleep,
}
use rabbitmq_operator.Server.Emits.{
  Emits, Emits-call, Emits-pure, Emits-gets, Emits-bind, Emits-on_error, Emits-on_outcome,
  Emits-retry, Emits-event, Emits-condition, Emits-weaken, Emits-bind-Returns, Returns,
  Returns-call,
}
use rabbitmq_operator.Scaling.{template_capacity}
use rabbitmq_operator.Scaling.Calls.{IsScalingCall, scale-Emits}
use rabbitmq_operator.Controller.Annotations.{
  OperationResult, operation_none, operation_created, operation_updated, BuilderKind, other_builder,
  statefulset_builder, annotate_if_needed, annotate_config_map, annotate_statefulset,
  annotate_config_map_once, annotate_statefulset_once, put_config_map, put_statefulset,
  read_config_map, update_annotation, annotated, time_stamp, plugins_update_annotation,
  server_conf_annotation, sts_create_annotation,
}
use rabbitmq_operator.Controller.Resources.{
  Builder, record_operation_result, reconcile_pvc, prepare_claims, and_then, apply_builder,
  apply_builders,
}
use rabbitmq_operator.Controller.Resources.Calls.{
  Builds, Updates, GivesKey, LiesIn, IsChildCall, apply_object-Fine,
}

module _ (server : Server) (namespace : String) (P : Object → Type 0) where
  abbrev Fine : {A : Type 0} → Act A → Type 0
  Fine m = Emits (IsChildCall server namespace P) m

  record-Fine :
      (o : Object) (r : OperationResult) (e : Option Error)
      → Fine (record_operation_result server o r e)
  unfolding record_operation_result
  record-Fine o operation_none e = Emits-pure _
  record-Fine o operation_created none = Emits-event _ _ _ tt
  record-Fine o operation_created (some e) = Emits-event _ _ _ tt
  record-Fine o operation_updated none = Emits-event _ _ _ tt
  record-Fine o operation_updated (some e) = Emits-event _ _ _ tt

  scaling-child :
      (key : ObjectKey) (desired : ℕ) (call : Call)
      → key.namespace ≡ namespace
      → IsScalingCall key desired call
      → IsChildCall server namespace P call
  scaling-child key desired (get_statefulset k) lies p = tt
  scaling-child key desired (get_pvc _) lies p = tt
  scaling-child key desired (sleep _) lies p = tt
  scaling-child key desired (delete_statefulset k options) lies p =
      (ap (λ z. z.namespace) p.0 ∙ lies, p.1)
  scaling-child key desired (update_pvc n pvc) lies p = p.0 ∙ lies
  scaling-child key desired _ lies p = absurd p

  pvc-Fine :
      (key : ObjectKey) (claims : List ClaimTemplate)
      → key.namespace ≡ namespace
      → Fine (reconcile_pvc server key claims)
  unfolding reconcile_pvc
  pvc-Fine key claims lies =
      Emits-bind _ _
        (Emits-weaken _ (λ c p. scaling-child key (template_capacity "persistence" claims) c lies p)
          (scale-Emits server "persistence" key (template_capacity "persistence" claims)))
        λ r.
          Emits-on_error r _ _
            (λ e.
              Emits-bind _ _ (Emits-event _ _ _ tt)
                (λ _. Emits-bind _ _ (Emits-condition server _ _ _ _) (λ _. Emits-pure _)))
            (Emits-pure _)

  prepare-Fine : (o : Object) → LiesIn namespace o → Fine (prepare_claims server o)
  unfolding prepare_claims
  prepare-Fine o lies = elim (Option-cases o.claims) [
    | inl q ↦ rw q (Emits-pure _)
    | inr (claims, q) ↦ rw q (pvc-Fine o.key claims lies)
  ]

  config_map-Fine :
      (key : ObjectKey) (a : String) (time : ℕ)
      → (a ≡ plugins_update_annotation) ⊎ (a ≡ server_conf_annotation)
      → Fine (annotate_config_map_once server key a (server.rfc3339 time))
  unfolding annotate_config_map_once read_config_map put_config_map
  config_map-Fine key a time which =
      Emits-bind-Returns
        {Q = λ r.
          (m : ConfigMap) → r ≡ ok m → (h : List Call) × (server.on_get_config_map h key ≡ ok m)}
        _ _ (Emits-call _ _ tt) (Returns-call _ _ (λ h m q. (h, q)))
        λ found has.
          Emits-on_outcome found _ _ (λ e. Emits-pure _)
            (λ cfg q. Emits-call _ _ ((has cfg q).0, key, cfg, a, time, (has cfg q).1, which, refl))

  statefulset-Fine :
      (key : ObjectKey) (time : ℕ)
      → Fine (annotate_statefulset_once server key sts_create_annotation (server.rfc3339 time))
  unfolding annotate_statefulset_once put_statefulset
  statefulset-Fine key time =
      Emits-bind-Returns
        {Q = λ r.
          (m : StatefulSet) → r ≡ ok m → (h : List Call) × (server.on_get_statefulset h key ≡ ok m)}
        _ _ (Emits-call _ _ tt) (Returns-call _ _ (λ h m q. (h, q)))
        λ found has.
          Emits-on_outcome found _ _ (λ e. Emits-pure _)
            (λ sts q. Emits-call _ _ ((has sts q).0, key, sts, time, (has sts q).1, refl))

  annotated-Fine : (name : String) (r : Option Error) → Fine (annotated server name r)
  unfolding annotated
  annotated-Fine name r =
      Emits-on_error r _ _ (λ e. Emits-bind _ _ (Emits-event _ _ _ tt) (λ _. Emits-pure _))
        (Emits-pure _)

  -- A time stamp is the text of some time.
  IsStamp : String → Type 0
  IsStamp t = (time : ℕ) × (server.rfc3339 time ≡ t)

  time_stamp-IsStamp : Returns IsStamp (gets (λ s. time_stamp server s.calls))
  unfolding time_stamp gets IsStamp
  time_stamp-IsStamp = record { at = λ s. (server.now s.calls, refl) }

  config_map-stamped :
      (key : ObjectKey) (a stamp : String) (time : ℕ)
      → server.rfc3339 time ≡ stamp
      → (a ≡ plugins_update_annotation) ⊎ (a ≡ server_conf_annotation)
      → Fine (annotate_config_map_once server key a stamp)
  config_map-stamped key a stamp time is_stamp which =
      subst (λ t. Fine (annotate_config_map_once server key a t)) is_stamp
        (config_map-Fine key a time which)

  statefulset-stamped :
      (key : ObjectKey) (stamp : String) (time : ℕ)
      → server.rfc3339 time ≡ stamp
      → Fine (annotate_statefulset_once server key sts_create_annotation stamp)
  statefulset-stamped key stamp time is_stamp =
      subst (λ t. Fine (annotate_statefulset_once server key sts_create_annotation t)) is_stamp
        (statefulset-Fine key time)

  annotate_map-Fine :
      (suffix a : String)
      → (a ≡ plugins_update_annotation) ⊎ (a ≡ server_conf_annotation)
      → Fine (annotate_config_map server suffix a)
  unfolding annotate_config_map update_annotation IsStamp
  annotate_map-Fine suffix a which = Emits-bind _ _ (Emits-gets _) λ rmq.
      Emits-bind-Returns _ _ (Emits-gets _) time_stamp-IsStamp λ stamp (time, is_stamp).
        Emits-bind _ _
          (Emits-retry server.retries _ _ (config_map-stamped _ a stamp time is_stamp which))
          (λ r. annotated-Fine _ r)

  annotate_sts-Fine : (index : ℕ) → Fine (annotate_statefulset server index)
  unfolding annotate_statefulset update_annotation IsStamp
  annotate_sts-Fine index = Emits-bind _ _ (Emits-gets _) λ rmq.
      Emits-bind-Returns _ _ (Emits-gets _) time_stamp-IsStamp λ stamp (time, is_stamp).
        Emits-bind _ _ (Emits-retry server.retries _ _ (statefulset-stamped _ stamp time is_stamp))
          (λ r. annotated-Fine _ r)

  annotate-Fine :
      (k : BuilderKind) (restart : Bool) (r : OperationResult)
      → Fine (annotate_if_needed server k restart r)
  unfolding annotate_if_needed
  annotate-Fine BuilderKind.plugins_config_map restart operation_none = Emits-pure _
  annotate-Fine BuilderKind.plugins_config_map restart operation_created = Emits-pure _
  annotate-Fine BuilderKind.plugins_config_map restart operation_updated =
      annotate_map-Fine _ _ (inl refl)
  annotate-Fine BuilderKind.server_config_map true operation_none = Emits-pure _
  annotate-Fine BuilderKind.server_config_map false operation_none = Emits-pure _
  annotate-Fine BuilderKind.server_config_map true operation_created = Emits-pure _
  annotate-Fine BuilderKind.server_config_map false operation_created = Emits-pure _
  annotate-Fine BuilderKind.server_config_map true operation_updated =
      annotate_map-Fine _ _ (inr refl)
  annotate-Fine BuilderKind.server_config_map false operation_updated = Emits-pure _
  annotate-Fine (statefulset_builder i) restart operation_none = Emits-pure _
  annotate-Fine (statefulset_builder i) restart operation_created = annotate_sts-Fine i
  annotate-Fine (statefulset_builder i) restart operation_updated = Emits-pure _
  annotate-Fine other_builder restart r = Emits-pure _

  and_then-Fine :
      (r : ReconcileResult) (next : Act ReconcileResult) → Fine next → Fine (and_then server r next)
  unfolding and_then
  and_then-Fine continue_reconcile next f = f
  and_then-Fine done next f = Emits-pure _
  and_then-Fine (error_out e) next f = Emits-pure _
  and_then-Fine (call_back_soon n) next f = Emits-pure _
  and_then-Fine (call_back_soon_error n e) next f = Emits-pure _

  after-Fine :
      (o : OperationResult) (rest : Act ReconcileResult)
      → Fine rest
      → Fine (elim o [
        | operation_none ↦ rest
        | operation_created ↦ pure done
        | operation_updated ↦ pure done
      ])
  after-Fine operation_none rest f = f
  after-Fine operation_created rest f = Emits-pure _
  after-Fine operation_updated rest f = Emits-pure _

  module _ (gives : GivesKey server) where
    apply_builder-Fine :
        (b : Builder) (o : Object) (rest : Act ReconcileResult)
        → Updates P b
        → LiesIn namespace o
        → Fine rest
        → Fine (apply_builder server b o rest)
    unfolding apply_builder
    apply_builder-Fine b o rest updates lies f =
        Emits-bind _ _
          (apply_object-Fine server namespace P gives b updates server.retries o b.restart lies)
          λ applied. Emits-bind _ _ (record-Fine applied.3 applied.0 applied.1) λ _.
            Emits-on_error applied.1 _ _
              (λ e. Emits-bind _ _ (Emits-condition server _ _ _ _) (λ _. Emits-pure _))
              (Emits-bind _ _ (annotate-Fine b.kind applied.2 applied.0)
                λ r. and_then-Fine r _ (after-Fine applied.0 rest f))

    -- Where the builders build objects of a namespace, and update them to objects with some property, the
    -- loop over them makes only the calls that children of the namespace with the property allow,
    -- whatever else the API server answers.
    pub apply_builders-Emits :
        (builders : List Builder)
        → All (λ b. Builds (LiesIn namespace) b × Updates P b) builders
        → Emits (IsChildCall server namespace P) (apply_builders server builders)
    unfolding apply_builders
    apply_builders-Emits [] f = Emits-pure _
    apply_builders-Emits (b ∷ builders) ((builds, updates), fs) =
        Emits-on_outcome b.build _ _ (λ e. Emits-pure _)
          λ o q. Emits-bind _ _ (prepare-Fine o (builds o q)) λ r.
            and_then-Fine r _
              (apply_builder-Fine b o _ updates (builds o q) (apply_builders-Emits builders fs))
