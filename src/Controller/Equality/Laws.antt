-- ===== src/Controller/Equality/Laws.antt =====
-- The comparison of conditions decides their equality.
use rabbitmq_operator.Prelude.{
  ℕ, Bool, true, ◌&&◌, List, [], ◌∷◌, ◌≡◌, ◌↔◌, refl, arith, eqb, ◌==◌, eq_iff, eq_refl, subst,
}
use rabbitmq_operator.Cluster.{Condition, ConditionType, ConditionStatus, type_eq, status_eq}
use rabbitmq_operator.Controller.Equality.{condition_eq, conditions_eq}

type_eq_sound : (a b : ConditionType) → type_eq a b ≡ true → a ≡ b
type_eq_sound a b h = ground arith

status_eq_sound : (a b : ConditionStatus) → status_eq a b ≡ true → a ≡ b
status_eq_sound a b h = ground arith

eqb_sound : (a b : ℕ) → eqb a b ≡ true → a ≡ b
eqb_sound a b h = ground arith

and_both : (a b : Bool) → (a && b) ≡ true → (a ≡ true) × (b ≡ true)
and_both a b h = ground arith

and_five :
    (a b c d e : Bool)
    → (a && b && c && d && e) ≡ true
    → (a ≡ true) × (b ≡ true) × (c ≡ true) × (d ≡ true) × (e ≡ true)
and_five a b c d e h = ground arith

condition_eq_sound : (a b : Condition) → condition_eq a b ≡ true → a ≡ b
unfolding condition_eq
condition_eq_sound a b h =
    let (t, s, n, r, m) =
      and_five (type_eq a.condition_type b.condition_type) (status_eq a.status b.status)
        (eqb a.last_transition_time b.last_transition_time) (a.reason == b.reason)
        (a.message == b.message) h in
    by_fields (type_eq_sound _ _ t) (status_eq_sound _ _ s) (eqb_sound _ _ n) ((eq_iff _ _).0 r)
      ((eq_iff _ _).0 m)
  where
    by_fields :
        a.condition_type ≡ b.condition_type
        → a.status ≡ b.status
        → a.last_transition_time ≡ b.last_transition_time
        → a.reason ≡ b.reason
        → a.message ≡ b.message
        → a ≡ b
    by_fields t s n r m = λ i. record {
      condition_type = t i;
      status = s i;
      last_transition_time = n i;
      reason = r i;
      message = m i;
    }

conditions_eq_sound : (as' bs : List Condition) → conditions_eq as' bs ≡ true → as' ≡ bs
unfolding conditions_eq
conditions_eq_sound [] [] h = refl
conditions_eq_sound [] (b ∷ bs) h = cc
conditions_eq_sound (a ∷ as') [] h = cc
conditions_eq_sound (a ∷ as') (b ∷ bs) h =
    let (x, xs) = and_both (condition_eq a b) (conditions_eq as' bs) h in
    cc (condition_eq_sound a b x, conditions_eq_sound as' bs xs)

type_eq_same : (a : ConditionType) → type_eq a a ≡ true
type_eq_same a = ground arith

status_eq_same : (a : ConditionStatus) → status_eq a a ≡ true
status_eq_same a = ground arith

eqb_same : (n : ℕ) → eqb n n ≡ true
eqb_same n = ground arith

conditions_eq_same : (cs : List Condition) → conditions_eq cs cs ≡ true
unfolding conditions_eq condition_eq
conditions_eq_same [] = refl
conditions_eq_same (c ∷ cs) = simp (
  type_eq_same c.condition_type,
  status_eq_same c.status,
  eqb_same c.last_transition_time,
  eq_refl,
  conditions_eq_same cs,
)

-- The comparison by which the step of the conditions decides whether to write the status is true of
-- equal lists of conditions, and of those alone.
pub conditions_eq_iff : (as' bs : List Condition) → (conditions_eq as' bs ≡ true) ↔ (as' ≡ bs)
conditions_eq_iff as' bs = (
  conditions_eq_sound as' bs,
  λ p. subst (λ cs. conditions_eq as' cs ≡ true) p (conditions_eq_same as'),
)
