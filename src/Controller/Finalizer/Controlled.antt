-- ===== src/Controller/Finalizer/Controlled.antt =====
-- The deletion passes over the StatefulSets that the cluster does not control.
use rabbitmq_operator.Prelude.{
  ℕ, zero, suc, String, Bool, false, Option, none, some, List, [], ◌∷◌, ◌≡◌, inl, inr, refl, sym,
  ap, ◌∙◌, ◌==◌, Bool-cases, Option-cases, if◌then◌else◌,
}
use rabbitmq_operator.Cluster.{RabbitmqCluster}
use rabbitmq_operator.Kube.{Error, Outcome, ok, err, is_conflict, StatefulSet, Pod}
use rabbitmq_operator.Server.{
  Server, State, Act, ◌>>=◌, pure, call, gets, on_error, on_outcome, retry_on_error, retry_after,
  ignore_not_found,
}
use rabbitmq_operator.Controller.Finalizer.{
  statefulset_uid, label_pods, add_rabbitmq_deletion_label, delete_once, delete_statefulsets,
}

abbrev pub is_uid : RabbitmqCluster → Option String → Bool
is_uid rmq none = false
is_uid rmq (some uid) = rmq.uid == uid

-- The controller of the StatefulSet is the cluster.
abbrev pub is_controlled : RabbitmqCluster → StatefulSet → Bool
is_controlled rmq sts = is_uid rmq sts.controller_uid

-- The StatefulSets of a list that the cluster controls.
abbrev pub controlled : RabbitmqCluster → List StatefulSet → List StatefulSet
controlled rmq [] = []
controlled rmq (sts ∷ rest) =
    let others = controlled rmq rest in if is_controlled rmq sts then sts ∷ others else others

Refused : RabbitmqCluster → StatefulSet → Type 0
Refused rmq sts = (e : Error) × (statefulset_uid sts rmq ≡ err e) × (is_conflict e ≡ false)

foreign_uid :
    (rmq : RabbitmqCluster) (sts : StatefulSet) → is_controlled rmq sts ≡ false → Refused rmq sts
unfolding statefulset_uid is_conflict Refused
foreign_uid rmq sts f = elim (Option-cases sts.controller_uid) [
  | inl q ↦ rw q (_, refl, refl)
  | inr (uid, q) ↦
      let other : (rmq.uid == uid) ≡ false = sym (ap (is_uid rmq) q) ∙ f in
      rw q (rw other (_, refl, refl))
]

-- The action leaves the cluster as it is.
record Keeps {A : Type 0} (m : Act A) : Type 0 where
  at : (s : State) → (m s).1.rmq ≡ s.rmq

Keeps-bind :
    {A B : Type 0} (m : Act A) (f : A → Act B) → Keeps m → ((a : A) → Keeps (f a)) → Keeps (m >>= f)
unfolding ◌>>=◌
Keeps-bind m f k kf = record { at = λ s. (kf (m s).0).at (m s).1 ∙ k.at s }

Keeps-pure : {A : Type 0} (a : A) → Keeps (pure a)
unfolding pure
Keeps-pure a = record { at = λ s. refl }

Keeps-call :
    {A : Type 0} (c : rabbitmq_operator.Server.Call)
    (respond : List rabbitmq_operator.Server.Call → A)
    → Keeps (call c respond)
unfolding call
Keeps-call c respond = record { at = λ s. refl }

Keeps-gets : {A : Type 0} (f : State → A) → Keeps (gets f)
unfolding gets
Keeps-gets f = record { at = λ s. refl }

Keeps-on_error :
    {A : Type 0} (r : Option Error) (fail : Error → Act A) (next : Act A)
    → ((e : Error) → Keeps (fail e))
    → Keeps next
    → Keeps (on_error r fail next)
unfolding on_error
Keeps-on_error none fail next kf kn = kn
Keeps-on_error (some e) fail next kf kn = kf e

Keeps-on_outcome :
    {A B : Type 0} (r : Outcome B) (fail : Error → Act A) (next : B → Act A)
    → ((e : Error) → Keeps (fail e))
    → ((b : B) → Keeps (next b))
    → Keeps (on_outcome r fail next)
unfolding on_outcome
Keeps-on_outcome (ok b) fail next kf kn = kn b
Keeps-on_outcome (err e) fail next kf kn = kf e

ruleset keeps_rules =
    (Keeps-pure, Keeps-call, Keeps-gets, Keeps-bind, Keeps-on_error, Keeps-on_outcome)

Keeps-retry_after :
    (again : Error → Bool) (m : Act (Option Error)) (r : Option Error)
    → Keeps m
    → Keeps (retry_after again m r)
unfolding retry_after
Keeps-retry_after again m none k = Keeps-pure none
Keeps-retry_after again m (some e) k = elim (Bool-cases (again e)) [
  | inl q ↦ rw q k
  | inr q ↦ rw q (Keeps-pure (some e))
]

Keeps-retry :
    (n : ℕ) (again : Error → Bool) (m : Act (Option Error))
    → Keeps m
    → Keeps (retry_on_error n again m)
unfolding retry_on_error
Keeps-retry zero again m k = k
Keeps-retry (suc n) again m k =
    Keeps-bind m _ k (λ r. Keeps-retry_after again _ r (Keeps-retry n again m k))

module _ (server : Server) where
  label-Keeps : (pods : List Pod) → Keeps (label_pods server pods)
  unfolding label_pods
  label-Keeps [] = Keeps-pure _
  label-Keeps (pod ∷ rest) =
      Keeps-bind _ _ (Keeps-call _ _)
        (λ r. Keeps-on_error (ignore_not_found r) _ _ (λ e. Keeps-pure _) (label-Keeps rest))

  pods-Keeps : (sts : StatefulSet) → Keeps (add_rabbitmq_deletion_label server sts)
  unfolding add_rabbitmq_deletion_label
  pods-Keeps sts =
      Keeps-bind _ _ (Keeps-call _ _)
        (λ pods. Keeps-on_outcome pods _ _ (λ e. Keeps-pure _) label-Keeps)

  once-Keeps : (sts : StatefulSet) → Keeps (delete_once server sts)
  unfolding delete_once
  once-Keeps sts = search (keeps_rules, pods-Keeps) depth 9

  refused_once :
      (sts : StatefulSet) (s : State)
      → is_controlled s.rmq sts ≡ false
      → (e : Error) × (delete_once server sts s ≡ (some e, s)) × (is_conflict e ≡ false)
  unfolding delete_once ◌>>=◌ gets on_outcome pure Refused
  refused_once sts s f = let (e, r, n) = foreign_uid s.rmq sts f in (e, simp r, n)

  no_retry :
      (n : ℕ) (m : Act (Option Error)) (e : Error) (s : State)
      → m s ≡ (some e, s)
      → is_conflict e ≡ false
      → retry_on_error n is_conflict m s ≡ (some e, s)
  unfolding retry_on_error ◌>>=◌ retry_after pure
  no_retry zero m e s r c = r
  no_retry (suc n) m e s r c = simp (r, c)

  -- One StatefulSet of the loop that the cluster does not control.
  skipped :
      (sts : StatefulSet) (s : State)
      → is_controlled s.rmq sts ≡ false
      → (retry_on_error server.retries is_conflict (delete_once server sts) s).1 ≡ s
  skipped sts s f =
      let (e, r, c) = refused_once sts s f in
      ap (λ z. z.1) (no_retry server.retries (delete_once server sts) e s r c)

  -- The StatefulSets of the list that the cluster does not control play no part in the deletion: for any
  -- list, the result, the calls and the cluster are those of the deletion of the ones that it controls.
  pub delete_statefulsets-controlled :
      (items : List StatefulSet) (s : State)
      → delete_statefulsets server items s ≡ delete_statefulsets server (controlled s.rmq items) s
  unfolding delete_statefulsets ◌>>=◌ pure
  delete_statefulsets-controlled [] s = refl
  delete_statefulsets-controlled (sts ∷ rest) s = elim (Bool-cases (is_controlled s.rmq sts)) [
    | inl own ↦
        let t = (retry_on_error server.retries is_conflict (delete_once server sts) s).1 in
        let kept : t.rmq ≡ s.rmq =
          (Keeps-retry server.retries is_conflict _ (once-Keeps sts)).at s in
        rw own (
          delete_statefulsets-controlled rest t
          ∙ ap (λ c. delete_statefulsets server (controlled c rest) t) kept)
    | inr other ↦ rw other (
        ap (delete_statefulsets server rest) (skipped sts s other)
        ∙ delete_statefulsets-controlled rest s)
  ]
