-- ===== src/Domain/Tests.antt =====
-- The life cycle at a concrete step.
use the402machine.Base.{◌≡◌, ◌↔◌, ok}
use the402machine.Domain.Lifecycle.{CatchStatus, transition_catch_resource, Step, transition_iff}

transition_iff_example :
    (transition_catch_resource CatchStatus.active CatchStatus.expired ≡ ok CatchStatus.expired)
    ↔ Step CatchStatus.active CatchStatus.expired
transition_iff_example = transition_iff CatchStatus.active CatchStatus.expired
