-- ===== src/Scaling/Laws.antt =====
-- What the scaler decides: when it refuses, when it does nothing, and what a success means.
use mathlib.Core.List.{append_assoc}
use rabbitmq_operator.Prelude.{
  ◌++◌, ℕ, zero, suc, ◌+◌, ◌≤◌, ◌<◌, String, Bool, true, false, Option, none, some, List, [], ◌∷◌,
  ◌≡◌, ◌⊎◌, inl, inr, refl, sym, ap, ◌∙◌, arith, ltb, ltb→lt, eqb, if◌then◌else◌, length, All, ◌<>◌,
  Bool-cases, Option-cases, subst,
}
use rabbitmq_operator.Kube.{
  Error, Outcome, Outcome-cases, ok, err, plain, wrapped, is_not_found, ObjectKey, StatefulSet,
  PersistentVolumeClaim,
}
use rabbitmq_operator.Server.{
  Call, Server, State, Act, ◌>>=◌, pure, call, on_error, on_outcome, get_statefulset,
  delete_statefulset, get_pvc, update_pvc, sleep,
}
use rabbitmq_operator.Scaling.{
  template_capacity, pvcs_needing_scaling, is_gone, existing_capacity, retry_with_interval,
  delete_statefulset_orphaned, scale_up_pvcs, scale_up, scale, orphan_options, read_statefulset,
}

module _ (server : Server) (pvc_name : String) (key : ObjectKey) (s : State) where
  abbrev after_read : State
  after_read = record s { calls = get_statefulset key ∷ s.calls }

  existing_capacity_ok :
      (sts : StatefulSet)
      → server.on_get_statefulset s.calls key ≡ ok sts
      → existing_capacity server pvc_name key s
        ≡ (ok (template_capacity pvc_name sts.volume_claim_templates), after_read)
  unfolding existing_capacity ◌>>=◌ call on_outcome pure
  existing_capacity_ok sts r = rw r

  existing_capacity_err :
      (e : Error)
      → server.on_get_statefulset s.calls key ≡ err e
      → existing_capacity server pvc_name key s ≡ (err e, after_read)
  unfolding existing_capacity ◌>>=◌ call on_outcome pure
  existing_capacity_err e r = rw r

  -- `Scale` behind the read of the capacity.
  abbrev decide_scale : ℕ → ℕ → Act (Option Error)
  decide_scale desired existing =
      if eqb existing desired
      then pure none
      else if ltb desired existing
      then pure (some (plain "shrinking persistent volumes is not supported"))
      else if eqb existing 0
      then pure (some (plain "changing from ephemeral to persistent storage is not supported"))
      else scale_up server pvc_name key desired

  scale_ok :
      (desired : ℕ) (sts : StatefulSet)
      → server.on_get_statefulset s.calls key ≡ ok sts
      → scale server pvc_name key desired s
        ≡ decide_scale desired (template_capacity pvc_name sts.volume_claim_templates) after_read
  unfolding scale ◌>>=◌ on_outcome
  scale_ok desired sts r = rw (existing_capacity_ok sts r)

  scale_err :
      (desired : ℕ) (e : Error)
      → server.on_get_statefulset s.calls key ≡ err e
      → is_not_found e ≡ true
      → scale server pvc_name key desired s ≡ (none, after_read)
  unfolding scale ◌>>=◌ on_outcome pure
  scale_err desired e r n = rw (existing_capacity_err e r) (rw n)

  shrinking :
      (desired existing : ℕ)
      → desired < existing
      → decide_scale desired existing after_read
        ≡ (some (plain "shrinking persistent volumes is not supported"), after_read)
  unfolding pure
  shrinking desired existing h = ground arith

  ephemeral :
      (desired : ℕ)
      → 0 < desired
      → decide_scale desired 0 after_read ≡ (
        some (plain "changing from ephemeral to persistent storage is not supported"),
        after_read,
      )
  unfolding pure
  ephemeral desired h = ground arith

  -- A cluster whose StatefulSet has claims of the desired capacity already, or that has no StatefulSet
  -- yet, is left alone: no error, and one read is the only call.
  pub scale_nothing :
      (desired : ℕ)
      → ((e : Error) × (server.on_get_statefulset s.calls key ≡ err e) × (is_not_found e ≡ true))
        ⊎ ((sts : StatefulSet) × (server.on_get_statefulset s.calls key ≡ ok sts)
            × (template_capacity pvc_name sts.volume_claim_templates ≡ desired))
      → scale server pvc_name key desired s ≡ (none, after_read)
  scale_nothing desired (inl (e, r, n)) = scale_err desired e r n
  scale_nothing desired (inr (sts, r, c)) =
      scale_ok desired sts r ∙ rw c (unfold pure in ground arith)

  -- Shrinking a claim, and adding storage to a cluster that was created without any, are refused:
  -- the result is an error, and one read is the only call.
  pub scale_refuses :
      (desired : ℕ) (sts : StatefulSet)
      → server.on_get_statefulset s.calls key ≡ ok sts
      → let existing = template_capacity pvc_name sts.volume_claim_templates in
        (desired < existing) ⊎ ((existing ≡ 0) × (0 < desired))
        → (e : Error) × (scale server pvc_name key desired s ≡ (some e, after_read))
  scale_refuses desired sts r (inl h) = (_, scale_ok desired sts r ∙ shrinking desired _ h)
  scale_refuses desired sts r (inr (z, h)) = (
    plain "changing from ephemeral to persistent storage is not supported",
    scale_ok desired sts r ∙ rw z (ephemeral desired h),
  )

-- Every selected claim is below the desired capacity.
pub pvcs_needing_scaling-All :
    (pvcs : List PersistentVolumeClaim) (desired : ℕ)
    → All (λ p. p.storage < desired) (pvcs_needing_scaling pvcs desired)
unfolding pvcs_needing_scaling
pvcs_needing_scaling-All [] desired = tt
pvcs_needing_scaling-All (p ∷ rest) desired = elim (Bool-cases (ltb p.storage desired)) [
  | inl small ↦ rw small (ltb→lt _ _ small, pvcs_needing_scaling-All rest desired)
  | inr big ↦ rw big (pvcs_needing_scaling-All rest desired)
]

-- The updates of claims in a history.
abbrev pub updates : List Call → ℕ
updates [] = 0
updates (update_pvc _ _ ∷ rest) = suc (updates rest)
updates (_ ∷ rest) = updates rest

-- A run that ends well has made so many updates in all; one that fails has made fewer, or the last
-- one has failed.
abbrev pub Counted : ℕ → Option Error × State → Type 0
Counted total (none, s) = updates s.calls ≡ total
Counted total (some _, s) = updates s.calls ≤ total

-- Without an error the run has made as many updates of claims as the list has claims, and with one
-- at most as many.
pub scale_up_pvcs-updates :
    (server : Server) (key : ObjectKey) (pvcs : List PersistentVolumeClaim) (desired : ℕ)
    (s : State)
    → Counted (updates s.calls + length pvcs) (scale_up_pvcs server key pvcs desired s)
unfolding scale_up_pvcs ◌>>=◌ call on_outcome on_error pure
scale_up_pvcs-updates server key [] desired s = omega arith
scale_up_pvcs-updates server key (pvc ∷ rest) desired s =
    elim (Outcome-cases (server.on_get_pvc s.calls claim)) [
      | inl (e, r) ↦ rw r (omega arith)
      | inr (latest, r) ↦
          rw r
            (elim (Option-cases
              (server.on_update_pvc (get_pvc claim ∷ s.calls) key.namespace (scaled latest))) [
                | inl q ↦ rw q (
                    subst (λ n. Counted n (scale_up_pvcs server key rest desired (after latest)))
                      (omega arith) (scale_up_pvcs-updates server key rest desired (after latest)))
                | inr (e, q) ↦ rw q (omega arith)
              ])
    ]
  where
    claim : ObjectKey
    claim = record { namespace = pvc.namespace; name = pvc.name }

    scaled : PersistentVolumeClaim → PersistentVolumeClaim
    scaled latest = record latest { storage = desired }

    after : PersistentVolumeClaim → State
    after latest = record s {
      calls = update_pvc key.namespace (scaled latest) ∷ get_pvc claim ∷ s.calls;
    }

retry_step :
    (msg : String) (n retry interval : ℕ) (f : Act Bool) (s : State)
    → (f s).0 ≡ false
    → retry_with_interval msg (suc n) retry interval f s
      ≡ retry_with_interval msg n retry interval f
          (record (f s).1 { calls = sleep interval ∷ (f s).1.calls })
unfolding retry_with_interval ◌>>=◌ call pure
retry_step msg n retry interval f s g = rw g

-- The history of the second state goes on from that of the first.
abbrev Extends : List Call → List Call → Type 0
Extends before after = (l : List Call) × (after ≡ l ++ before)

Extends-trans : {a b c : List Call} → Extends a b → Extends b c → Extends a c
Extends-trans {a} (l, p) (m, q) = (m ++ l, q ∙ ap (λ x. m ++ x) p ∙ sym (append_assoc m l a))

-- A wait that ends well has seen its test pass, in a state that it has come to.
retry_with_interval_seen :
    (msg : String) (n retry interval : ℕ) (f : Act Bool) (s : State)
    → ((t : State) → Extends t.calls (f t).1.calls)
    → (retry_with_interval msg n retry interval f s).0 ≡ none
    → (s' : State) × Extends s.calls s'.calls × ((f s').0 ≡ true)
retry_with_interval_seen msg zero retry interval f s x h = unfold retry_with_interval pure in cc
retry_with_interval_seen msg (suc n) retry interval f s x h = elim (Bool-cases (f s).0) [
  | inl t ↦ (s, ([], refl), t)
  | inr g ↦
      let slept : State = record (f s).1 { calls = sleep interval ∷ (f s).1.calls } in
      let (s', later, t) =
        retry_with_interval_seen msg n retry interval f slept x
          (ap (λ r. r.0) (sym (retry_step msg n retry interval f s g)) ∙ h) in
      (s', Extends-trans (Extends-trans (x s) (sleep interval ∷ [], refl)) later, t)
]

last_error :
    (w : Option Error) (g : Error → Error) (s : State)
    → (on_error w (λ e. pure (some (g e))) (pure none) s).0 ≡ none
    → w ≡ none
unfolding on_error pure
last_error none g s h = refl
last_error (some e) g s h = cc

-- Two steps that both end the action with an error of their own where they fail.
both_passed :
    (deleted : Option Error) (wait : Act (Option Error)) (f g : Error → Error) (s : State)
    → (on_error deleted
        (λ e. pure (some (f e)))
        (do waited ← wait; on_error waited (λ e. pure (some (g e))) (pure none))
        s).0
      ≡ none
    → (deleted ≡ none) × ((wait s).0 ≡ none)
unfolding ◌>>=◌ pure on_error
both_passed (some e) wait f g s h = cc
both_passed none wait f g s h = (refl, last_error (wait s).0 g (wait s).1 h)

is_gone-inv :
    (r : Outcome StatefulSet)
    → is_gone r ≡ true
    → (e : Error) × (r ≡ err e) × (is_not_found e ≡ true)
unfolding is_gone
is_gone-inv (err e) h = (e, refl, h)
is_gone-inv (ok a) h = cc

module _ (server : Server) (key : ObjectKey) where
  abbrev check_gone : Act Bool
  check_gone = do r ← read_statefulset server key; pure (is_gone r)

  check_gone_seen :
      (s : State)
      → (check_gone s).0 ≡ true
      → (e : Error) × (server.on_get_statefulset s.calls key ≡ err e) × (is_not_found e ≡ true)
  unfolding ◌>>=◌ call pure is_gone
  check_gone_seen s h = is_gone-inv (server.on_get_statefulset s.calls key) h

  deletion_parts :
      (s : State)
      → (delete_statefulset_orphaned server key s).0 ≡ none
      → (server.on_delete_statefulset s.calls key orphan_options ≡ none)
        × ((retry_with_interval "delete statefulSet" 10 10 3 check_gone
              (record s { calls = delete_statefulset key orphan_options ∷ s.calls })).0
            ≡ none)
  unfolding delete_statefulset_orphaned ◌>>=◌ call pure on_error
  deletion_parts s h =
      both_passed (server.on_delete_statefulset s.calls key orphan_options)
        (retry_with_interval "delete statefulSet" 10 10 3 check_gone)
        (λ e. wrapped ("failed to delete statefulSet " <> key.name) e)
        (λ e. wrapped ("statefulSet not deleting after 30 seconds " <> key.name) e)
        (record s { calls = delete_statefulset key orphan_options ∷ s.calls }) h

  check_gone-Extends : (s : State) → Extends s.calls (check_gone s).1.calls
  unfolding ◌>>=◌ call pure
  check_gone-Extends s = (get_statefulset key ∷ [], refl)

  -- Where the deletion of the StatefulSet ends well, the API server has accepted it, and after some
  -- further calls behind the deletion it has answered a read with the error that the StatefulSet is
  -- not found.
  pub delete_statefulset_orphaned_gone :
      (s : State)
      → (delete_statefulset_orphaned server key s).0 ≡ none
      → (server.on_delete_statefulset s.calls key orphan_options ≡ none)
        × ((behind : List Call) × (e : Error) × (server.on_get_statefulset
                (behind ++ delete_statefulset key orphan_options ∷ s.calls)
                key
              ≡ err e)
            × (is_not_found e ≡ true))
  delete_statefulset_orphaned_gone s h =
      let (accepted, waited) = deletion_parts s h in
      let (s', (behind, later), seen) =
        retry_with_interval_seen "delete statefulSet" 10 10 3 check_gone
          (record s { calls = delete_statefulset key orphan_options ∷ s.calls }) check_gone-Extends
          waited in
      let (e, r, n) = check_gone_seen s' seen in
      (accepted, (behind, e, ap (λ c. server.on_get_statefulset c key) (sym later) ∙ r, n))
