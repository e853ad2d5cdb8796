-- ===== src/Controller/Resources/Calls.antt =====
-- Which calls the loop over the child resources of controllers/reconcile_resources.go may make, and those for one object.
use rabbitmq_operator.Prelude.{
  ℕ, String, Bool, true, ◌&&◌, List, ◌==◌, ◌≡◌, refl, sym, ap, ◌∙◌, Option-cases, Bool-cases, inl,
  inr, eq_iff, insert, ◌⊎◌,
}
use rabbitmq_operator.Kube.{
  Outcome, Outcome-cases, ok, err, is_not_found, is_conflict, ObjectKey, Object, ConfigMap,
  StatefulSet,
}
use rabbitmq_operator.Server.{
  Call, Server, Act, call, get_statefulset, update_statefulset, delete_statefulset, get_pvc,
  update_pvc, get_config_map, update_config_map, get_object, create_object, update_object,
  record_event, sleep,
}
use rabbitmq_operator.Server.Emits.{
  Emits, Emits-call, Emits-pure, Emits-modify_rmq, Emits-bind, Emits-if, Emits-on_error,
  Emits-on_outcome, Emits-bind-Returns, Returns, Returns-pure, Returns-call, Returns-bind,
  Returns-on_error, Returns-on_outcome, Returns-if,
}
use rabbitmq_operator.Builders.Meta.{ok_injective}
use rabbitmq_operator.Controller.Annotations.{
  plugins_update_annotation, server_conf_annotation, sts_create_annotation,
}
use rabbitmq_operator.Controller.Resources.{
  Builder, Applied, same_key, mutate, create_with, update_with, create_or_update, apply_object,
}

-- What `Build` and `Update` of a builder leave.
abbrev pub Builds : (Object → Type 0) → Builder → Type 0
Builds P b = (o : Object) → b.build ≡ ok o → P o

abbrev pub Updates : (Object → Type 0) → Builder → Type 0
Updates P b = (restart flag : Bool) (o o' : Object) → b.update restart o ≡ ok (o', flag) → P o'

-- The API server answers a read of an object with the object of that key.
abbrev pub GivesKey : Server → Type 0
GivesKey server =
    (h : List Call) (t : String) (k : ObjectKey) (o : Object)
    → server.on_get_object h t k ≡ ok o
    → o.key ≡ k

-- The object lies in the namespace.
abbrev pub LiesIn : String → Object → Type 0
LiesIn namespace o = o.key.namespace ≡ namespace

-- A config map that the server has returned, marked as updated at some time: the one of the plugins, or
-- the one of the server.
abbrev pub IsAnnotatedMap : Server → ConfigMap → Type 0
IsAnnotatedMap server c =
    (h : List Call) × (key : ObjectKey) × (found : ConfigMap) × (annotation : String) × (time : ℕ)
    × (server.on_get_config_map h key ≡ ok found)
    × ((annotation ≡ plugins_update_annotation) ⊎ (annotation ≡ server_conf_annotation))
    × (c ≡ record found { annotations = insert annotation (server.rfc3339 time) found.annotations })

-- A StatefulSet that the server has returned, marked as created at some time.
abbrev pub IsAnnotatedSet : Server → StatefulSet → Type 0
IsAnnotatedSet server s =
    (h : List Call) × (key : ObjectKey) × (found : StatefulSet) × (time : ℕ)
    × (server.on_get_statefulset h key ≡ ok found)
    × (s ≡ record found {
      annotations = insert sts_create_annotation (server.rfc3339 time) found.annotations;
    })

-- The calls that the loop may make for children of one namespace that satisfy `P`: it reads, creates and
-- updates objects there, and what it writes satisfies `P`; it deletes only StatefulSets of the namespace,
-- and leaves their pods and claims alone; it updates claims of the namespace. A config map or a
-- StatefulSet that it updates for an annotation is one that the server has returned, with the time
-- stamp as the value of that annotation and no other change.
abbrev pub IsChildCall : Server → String → (Object → Type 0) → Call → Type 0
IsChildCall server namespace P (get_object _ k) = k.namespace ≡ namespace
IsChildCall server namespace P (create_object o) = LiesIn namespace o × P o
IsChildCall server namespace P (update_object o) = LiesIn namespace o × P o
IsChildCall server namespace P (delete_statefulset k options) =
    (k.namespace ≡ namespace) × (options.orphan ≡ true)
IsChildCall server namespace P (update_pvc n _) = n ≡ namespace
IsChildCall server namespace P (get_pvc _) = Unit
IsChildCall server namespace P (get_statefulset _) = Unit
IsChildCall server namespace P (update_statefulset s) = IsAnnotatedSet server s
IsChildCall server namespace P (get_config_map _) = Unit
IsChildCall server namespace P (update_config_map c) = IsAnnotatedMap server c
IsChildCall server namespace P (record_event _ _ _) = Unit
IsChildCall server namespace P (sleep _) = Unit
IsChildCall server namespace P _ = ⊥

same_namespace : (a b : ObjectKey) → same_key a b ≡ true → a.namespace ≡ b.namespace
same_namespace a b e = elim (Bool-cases (a.namespace == b.namespace)) [
  | inl q ↦ (eq_iff a.namespace b.namespace).0 q
  | inr q ↦ absurd (cc (sym (ap (λ t. t && (a.name == b.name)) q) ∙ e))
]

module _ (server : Server) (namespace : String) (P : Object → Type 0) where
  abbrev pub Fine : {A : Type 0} → Act A → Type 0
  Fine m = Emits (IsChildCall server namespace P) m

  -- The result of `mutate` for an object of the namespace.
  abbrev Mutated : Outcome (Object × Bool) → Type 0
  Mutated r = (o : Object) (flag : Bool) → r ≡ ok (o, flag) → LiesIn namespace o × P o

  mutate-Mutated :
      (b : Builder) (restart : Bool) (o : Object)
      → Updates P b
      → LiesIn namespace o
      → Mutated (mutate b restart o)
  unfolding mutate
  mutate-Mutated b restart o updates lies o' flag e = elim (Outcome-cases (b.update restart o)) [
    | inl (x, q) ↦ absurd (cc (simp (mutate, q) at e))
    | inr (changed, q) ↦ elim (Bool-cases (same_key o.key changed.0.key)) [
      | inl k ↦
          let same : changed ≡ (o', flag) = ok_injective (simp (mutate, q, k) at e) in
          (
            sym (ap (λ z. z.0.key.namespace) same)
                ∙ sym (same_namespace o.key changed.0.key k)
                ∙ lies,
            updates restart flag o o' (q ∙ ap ok same),
          )
      | inr k ↦ absurd (cc (simp (mutate, q, k) at e))
    ]
  ]

  create_with-Fine :
      (given : Object) (r : Outcome (Object × Bool)) (restart : Bool)
      → Mutated r
      → Fine (create_with server given r restart)
  unfolding create_with
  create_with-Fine given (err e) restart m = Emits-pure _
  create_with-Fine given (ok (o, flag)) restart m =
      Emits-bind _ _ (Emits-call _ _ (m o flag refl))
        λ r. Emits-on_error r _ _ (λ e. Emits-pure _) (Emits-pure _)

  update_with-Fine :
      (existing : Object) (r : Outcome (Object × Bool)) (restart : Bool)
      → Mutated r
      → Fine (update_with server existing r restart)
  unfolding update_with
  update_with-Fine existing (err e) restart m = Emits-pure _
  update_with-Fine existing (ok (o, flag)) restart m =
      Emits-if (server.semantic_equal existing o) _ _ (λ _. Emits-pure _)
        λ _.
          Emits-bind _ _ (Emits-call _ _ (m o flag refl))
            λ r. Emits-on_error r _ _ (λ e. Emits-pure _) (Emits-pure _)

  -- The object that the next run starts with.
  abbrev Keeps : Applied → Type 0
  Keeps applied = LiesIn namespace applied.3

  create_with-Keeps :
      (given : Object) (r : Outcome (Object × Bool)) (restart : Bool)
      → LiesIn namespace given
      → Mutated r
      → Returns Keeps (create_with server given r restart)
  unfolding create_with
  create_with-Keeps given (err e) restart lies m = Returns-pure _ lies
  create_with-Keeps given (ok (o, flag)) restart lies m =
      let kept = (m o flag refl).0 in
      Returns-bind {P = λ _. Unit} _ _ (Returns-call _ _ (λ h. tt))
        λ r _. Returns-on_error r _ _ (λ e. Returns-pure _ kept) (Returns-pure _ kept)

  update_with-Keeps :
      (existing : Object) (r : Outcome (Object × Bool)) (restart : Bool)
      → LiesIn namespace existing
      → Mutated r
      → Returns Keeps (update_with server existing r restart)
  unfolding update_with
  update_with-Keeps existing (err e) restart lies m = Returns-pure _ lies
  update_with-Keeps existing (ok (o, flag)) restart lies m =
      let kept = (m o flag refl).0 in
      Returns-if (server.semantic_equal existing o) _ _ (Returns-pure _ kept) (
        Returns-bind {P = λ _. Unit} _ _ (Returns-call _ _ (λ h. tt))
          λ r _. Returns-on_error r _ _ (λ e. Returns-pure _ kept) (Returns-pure _ kept))

  module _ (gives : GivesKey server) (b : Builder) (updates : Updates P b) where
    -- A found object has the key that was asked for.
    abbrev Found : ObjectKey → Outcome Object → Type 0
    Found k found = (o : Object) → found ≡ ok o → o.key ≡ k

    get_object-Found :
        (o : Object)
        → Returns
            (Found o.key)
            (call (get_object o.type_name o.key) (λ h. server.on_get_object h o.type_name o.key))
    get_object-Found o = Returns-call _ _ (λ h x e. gives h o.type_name o.key x e)

    create_or_update-Fine :
        (o : Object) (restart : Bool)
        → LiesIn namespace o
        → Fine (create_or_update server b o restart)
    unfolding create_or_update
    create_or_update-Fine o restart lies =
        Emits-bind-Returns _ _ (Emits-call _ _ lies) (get_object-Found o) λ found has.
          Emits-on_outcome found _ _
            (λ e.
              Emits-if (is_not_found e) _ _
                (λ _.
                  Emits-bind _ _ (Emits-modify_rmq _)
                    (λ _. create_with-Fine o _ restart (mutate-Mutated b restart o updates lies)))
                (λ _. Emits-pure _))
            (λ existing q. Emits-bind _ _ (Emits-modify_rmq _) (λ _.
              update_with-Fine existing _ restart (
                mutate-Mutated b restart existing updates
                  (ap (λ k. k.namespace) (has existing q) ∙ lies))))

    create_or_update-Keeps :
        (o : Object) (restart : Bool)
        → LiesIn namespace o
        → Returns Keeps (create_or_update server b o restart)
    unfolding create_or_update
    create_or_update-Keeps o restart lies = Returns-bind _ _ (get_object-Found o) λ found has.
        Returns-on_outcome found _ _
          (λ e.
            Returns-if (is_not_found e) _ _
              (Returns-bind {P = λ _. Unit} _ _ (record { at = λ s. tt })
                λ _ _. create_with-Keeps o _ restart lies (mutate-Mutated b restart o updates lies))
              (Returns-pure _ lies))
          (λ existing q.
            let there = ap (λ k. k.namespace) (has existing q) ∙ lies in
            Returns-bind {P = λ _. Unit} _ _ (record { at = λ s. tt })
              λ _ _.
                update_with-Keeps existing _ restart there
                  (mutate-Mutated b restart existing updates there))

    pub apply_object-Fine :
        (n : ℕ) (o : Object) (restart : Bool)
        → LiesIn namespace o
        → Fine (apply_object server n b o restart)
    unfolding apply_object
    apply_object-Fine ℕ.zero o restart lies = create_or_update-Fine o restart lies
    apply_object-Fine (ℕ.suc n) o restart lies =
        Emits-bind-Returns _ _ (create_or_update-Fine o restart lies)
          (create_or_update-Keeps o restart lies)
          λ applied kept. elim (Option-cases applied.1) [
            | inl q ↦ rw q (Emits-pure _)
            | inr (e, q) ↦ rw q (
                Emits-if (is_conflict e) _ _ (λ _. apply_object-Fine n applied.3 applied.2 kept)
                  (λ _. Emits-pure _))
          ]
