-- ===== src/Engine/Dispatch.antt =====
-- The head of dispatchWithConcurrency (src/app/recurd/triggerengine/engine.go): the trigger is looked up
-- at each event, and an event of a trigger that is gone or not active is ignored.
use recur.Prelude.{Option, none, some, ◌==◌, String_eq, if◌then◌else◌}
use recur.Domain.{Trigger, status_active}
use recur.Engine.{TriggerEvent, System, Outcome, ok, dispatch_with_concurrency}

unfoldable pub dispatch : Option Trigger → TriggerEvent → System → Outcome
unfolding dispatch_with_concurrency
dispatch none event s = ok s
dispatch (some t) event s =
    if t.status == status_active
    then dispatch_with_concurrency t.concurrency_mode t.max_queue_size event s
    else ok s
