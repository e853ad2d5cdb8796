-- ===== src/Server/Emits.antt =====
-- Which calls an action makes, one rule for each way to build an action.
use mathlib.Core.List.{append_assoc}
use rabbitmq_operator.Prelude.{
  ℕ, zero, suc, String, Bool, true, false, Option, none, some, List, [], ◌∷◌, ◌++◌, ◌≡◌, refl, sym,
  ap, ◌∙◌, if◌then◌else◌, All, All-append,
}
use rabbitmq_operator.Cluster.{RabbitmqCluster, ConditionType, ConditionStatus}
use rabbitmq_operator.Kube.{Error, Outcome, ok, err}
use rabbitmq_operator.Server.{
  Call, EventType, record_event, update_cluster, update_status, Server, State, Act, ◌>>=◌, pure,
  call, gets, modify_rmq, event, retry_on_error, retry_after, set_cluster_condition, replace_rmq,
  put_cluster, put_status, on_error, on_outcome,
}

-- From every state, `m` makes some calls, each of which satisfies `P`, and no others.
pub record Emits {A : Type 0} (P : Call → Type 0) (m : Act A) : Type 0 where
  pub at : (s : State) → (made : List Call) × ((m s).1.calls ≡ made ++ s.calls) × All P made

module _ {P : Call → Type 0} where
  pub Emits-pure : {A : Type 0} (a : A) → Emits P (pure a)
  unfolding pure
  Emits-pure a = record { at = λ s. ([], refl, tt) }

  pub Emits-gets : {A : Type 0} (f : State → A) → Emits P (gets f)
  unfolding gets
  Emits-gets f = record { at = λ s. ([], refl, tt) }

  pub Emits-modify_rmq : (f : RabbitmqCluster → RabbitmqCluster) → Emits P (modify_rmq f)
  unfolding modify_rmq
  Emits-modify_rmq f = record { at = λ s. ([], refl, tt) }

  pub Emits-call :
      {A : Type 0} (c : Call) (respond : List Call → A) → P c → Emits P (call c respond)
  unfolding call
  Emits-call c respond p = record { at = λ s. (c ∷ [], refl, (p, tt)) }

  pub Emits-event : (t : EventType) (r m : String) → P (record_event t r m) → Emits P (event t r m)
  unfolding event
  Emits-event t r m p = Emits-call (record_event t r m) (λ _. tt) p

  pub Emits-bind :
      {A B : Type 0} (m : Act A) (f : A → Act B)
      → Emits P m
      → ((a : A) → Emits P (f a))
      → Emits P (m >>= f)
  unfolding ◌>>=◌
  Emits-bind m f em ef = record {
    at = λ s.
        let (made, e, p) = em.at s in
        let (made', e', p') = (ef (m s).0).at (m s).1 in
        (
          made' ++ made,
          e' ∙ ap (λ cs. made' ++ cs) e ∙ sym (append_assoc made' made s.calls),
          All-append P made' made p' p,
        );
  }

  pub Emits-if :
      {A : Type 0} (b : Bool) (m n : Act A)
      → (b ≡ true → Emits P m)
      → (b ≡ false → Emits P n)
      → Emits P (if b then m else n)
  Emits-if true m n em en = em refl
  Emits-if false m n em en = en refl

  pub Emits-on_error :
      {B : Type 0} (r : Option Error) (fail : Error → Act B) (next : Act B)
      → ((e : Error) → Emits P (fail e))
      → Emits P next
      → Emits P (on_error r fail next)
  unfolding on_error
  Emits-on_error none fail next ef en = en
  Emits-on_error (some e) fail next ef en = ef e

  pub Emits-on_outcome :
      {A B : Type 0} (r : Outcome A) (fail : Error → Act B) (next : A → Act B)
      → ((e : Error) → Emits P (fail e))
      → ((a : A) → r ≡ ok a → Emits P (next a))
      → Emits P (on_outcome r fail next)
  unfolding on_outcome
  Emits-on_outcome (ok a) fail next ef en = en a refl
  Emits-on_outcome (err e) fail next ef en = ef e

  Emits-retry_after :
      (retriable : Error → Bool) (again : Act (Option Error)) (r : Option Error)
      → Emits P again
      → Emits P (retry_after retriable again r)
  unfolding retry_after
  Emits-retry_after retriable again none e = Emits-pure none
  Emits-retry_after retriable again (some x) e =
      Emits-if (retriable x) again (pure (some x)) (λ _. e) (λ _. Emits-pure (some x))

  pub Emits-retry :
      (n : ℕ) (retriable : Error → Bool) (f : Act (Option Error))
      → Emits P f
      → Emits P (retry_on_error n retriable f)
  unfolding retry_on_error
  Emits-retry zero retriable f ef = ef
  Emits-retry (suc n) retriable f ef =
      Emits-bind f _ ef (λ r. Emits-retry_after retriable _ r (Emits-retry n retriable f ef))

  module _ (server : Server) where
    pub Emits-condition :
        (t : ConditionType) (c : ConditionStatus) (reason : String) (messages : List String)
        → Emits P (set_cluster_condition server t c reason messages)
    unfolding set_cluster_condition
    Emits-condition t c reason messages = record { at = λ s. ([], refl, tt) }

    Emits-replace : (r : Outcome RabbitmqCluster) → Emits P (replace_rmq server r)
    unfolding replace_rmq
    Emits-replace (ok rmq) = record { at = λ s. ([], refl, tt) }
    Emits-replace (err e) = record { at = λ s. ([], refl, tt) }

    pub Emits-put_cluster :
        ((rmq : RabbitmqCluster) → P (update_cluster rmq)) → Emits P (put_cluster server)
    unfolding put_cluster
    Emits-put_cluster p = search (Emits-gets, Emits-bind, Emits-call, Emits-replace, p)

    pub Emits-put_status :
        ((rmq : RabbitmqCluster) → P (update_status rmq)) → Emits P (put_status server)
    unfolding put_status
    Emits-put_status p = search (Emits-gets, Emits-bind, Emits-call, Emits-replace, p)

-- From every state, the result of `m` satisfies `Q`.
pub record Returns {A : Type 0} (Q : A → Type 0) (m : Act A) : Type 0 where
  pub at : (s : State) → Q (m s).0

module _ {A : Type 0} {Q : A → Type 0} where
  pub Returns-pure : (a : A) → Q a → Returns Q (pure a)
  unfolding pure
  Returns-pure a q = record { at = λ s. q }

  pub Returns-call :
      (c : Call) (respond : List Call → A)
      → ((h : List Call) → Q (respond h))
      → Returns Q (call c respond)
  unfolding call
  Returns-call c respond q = record { at = λ s. q s.calls }

  pub Returns-bind :
      {B : Type 0} {P : B → Type 0} (m : Act B) (f : B → Act A)
      → Returns P m
      → ((b : B) → P b → Returns Q (f b))
      → Returns Q (m >>= f)
  unfolding ◌>>=◌
  Returns-bind m f rm rf = record { at = λ s. (rf (m s).0 (rm.at s)).at (m s).1 }

  pub Returns-on_error :
      (r : Option Error) (fail : Error → Act A) (next : Act A)
      → ((e : Error) → Returns Q (fail e))
      → Returns Q next
      → Returns Q (on_error r fail next)
  unfolding on_error
  Returns-on_error none fail next rf rn = rn
  Returns-on_error (some e) fail next rf rn = rf e

  pub Returns-on_outcome :
      {B : Type 0} (r : Outcome B) (fail : Error → Act A) (next : B → Act A)
      → ((e : Error) → Returns Q (fail e))
      → ((b : B) → r ≡ ok b → Returns Q (next b))
      → Returns Q (on_outcome r fail next)
  unfolding on_outcome
  Returns-on_outcome (ok b) fail next rf rn = rn b refl
  Returns-on_outcome (err e) fail next rf rn = rf e

  pub Returns-if :
      (b : Bool) (m n : Act A) → Returns Q m → Returns Q n → Returns Q (if b then m else n)
  Returns-if true m n rm rn = rm
  Returns-if false m n rm rn = rn

  -- What follows may rely on what is known of the result.
  pub Emits-bind-Returns :
      {B : Type 0} {P : Call → Type 0} (m : Act A) (f : A → Act B)
      → Emits P m
      → Returns Q m
      → ((a : A) → Q a → Emits P (f a))
      → Emits P (m >>= f)
  unfolding ◌>>=◌
  Emits-bind-Returns {B} {P} m f em rm ef = record {
    at = λ s.
        let (made, e, p) = em.at s in
        let (made', e', p') = (ef (m s).0 (rm.at s)).at (m s).1 in
        (
          made' ++ made,
          e' ∙ ap (λ cs. made' ++ cs) e ∙ sym (append_assoc made' made s.calls),
          All-append P made' made p' p,
        );
  }

pub All-weaken :
    {P Q : Call → Type 0} (calls : List Call) → ((c : Call) → P c → Q c) → All P calls → All Q calls
All-weaken [] f p = tt
All-weaken (c ∷ calls) f p = (f c p.0, All-weaken calls f p.1)

pub Emits-weaken :
    {A : Type 0} {P Q : Call → Type 0} (m : Act A)
    → ((c : Call) → P c → Q c)
    → Emits P m
    → Emits Q m
Emits-weaken m f em = record {
  at = λ s. let (made, e, p) = em.at s in (made, e, All-weaken made f p);
}

pub ruleset emits_rules = (
  Emits-pure, Emits-gets, Emits-modify_rmq, Emits-call, Emits-event, Emits-bind, Emits-if,
  Emits-retry, Emits-on_error, Emits-on_outcome, Emits-condition, Emits-put_cluster,
  Emits-put_status,
)
