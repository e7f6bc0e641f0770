-- ===== src/Domain/Lifecycle.antt =====
-- src/domain/catch-resource.ts: the states of a CATCH resource and its legal transitions.
use the402machine.Base.{
  ◌≡◌, ◌↔◌, refl, Bool, true, false, ◌&&◌, ◌||◌, if◌then◌else◌, Result, ok, err,
}

pub data CatchStatus : Type 0 where
  active exhausted expired suspended manually_destroyed deleted : CatchStatus

pub data IllegalTransition : Type 0 where
  illegal : CatchStatus → CatchStatus → IllegalTransition

abbrev pub is_active : CatchStatus → Bool
is_active active = true
is_active _ = false

abbrev pub is_exhausted : CatchStatus → Bool
is_exhausted exhausted = true
is_exhausted _ = false

abbrev pub is_deleted : CatchStatus → Bool
is_deleted deleted = true
is_deleted _ = false

-- `INACTIVE_STATUSES.has`
abbrev pub is_inactive : CatchStatus → Bool
is_inactive active = false
is_inactive deleted = false
is_inactive _ = true

unfoldable pub can_transition_catch_resource : CatchStatus → CatchStatus → Bool
can_transition_catch_resource from to =
    (is_active from && is_inactive to) || (is_inactive from && is_deleted to)

unfoldable pub transition_catch_resource :
    CatchStatus → CatchStatus → Result IllegalTransition CatchStatus
unfolding can_transition_catch_resource
transition_catch_resource from to =
    if can_transition_catch_resource from to then ok to else err (illegal from to)

-- The life cycle: an active resource ends in one of four ways, and a resource that has ended is
-- deleted.
pub data Step : CatchStatus → CatchStatus → Type 0 where
  exhaust : Step active exhausted
  expire : Step active expired
  suspend : Step active suspended
  destroy : Step active manually_destroyed
  purge_exhausted : Step exhausted deleted
  purge_expired : Step expired deleted
  purge_suspended : Step suspended deleted
  purge_destroyed : Step manually_destroyed deleted

transition_sound :
    (from to : CatchStatus) → transition_catch_resource from to ≡ ok to → Step from to
unfolding transition_catch_resource
transition_sound active exhausted h = exhaust
transition_sound active expired h = expire
transition_sound active suspended h = suspend
transition_sound active manually_destroyed h = destroy
transition_sound exhausted deleted h = purge_exhausted
transition_sound expired deleted h = purge_expired
transition_sound suspended deleted h = purge_suspended
transition_sound manually_destroyed deleted h = purge_destroyed
transition_sound from to h = cc

transition_complete :
    {from to : CatchStatus} → Step from to → transition_catch_resource from to ≡ ok to
unfolding transition_catch_resource
transition_complete exhaust = refl
transition_complete expire = refl
transition_complete suspend = refl
transition_complete destroy = refl
transition_complete purge_exhausted = refl
transition_complete purge_expired = refl
transition_complete purge_suspended = refl
transition_complete purge_destroyed = refl

-- A transition is accepted, with its target as the result, exactly when it is a step of the life
-- cycle: from active to exhausted, expired, suspended or manually destroyed, or from one of these
-- four to deleted.
pub transition_iff :
    (from to : CatchStatus) → (transition_catch_resource from to ≡ ok to) ↔ Step from to
transition_iff from to = (transition_sound from to, transition_complete)
