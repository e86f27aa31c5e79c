-- ===== src/Registry/Control/Dispatch.antt =====
-- What suspending a trigger means to the engine of src/app/recurd/triggerengine, which reads the
-- trigger from the registry at each event.
use recur.Prelude.{String, String_eq, ◌≡◌, ap, ◌∙◌, some}
use recur.Prelude.Dict
use recur.Prelude.Dict.{lookup-insert_self}
use recur.EntityIndex.{EntityRef}
use recur.Domain.{Trigger, status_active, status_suspended}
use recur.Registry.{Env, Registry}
use recur.Registry.Queries.{get_trigger}
use recur.Registry.Control.{
  find_entity_by_type, found, set_trigger_status, suspend_trigger, resume_trigger,
}
use recur.Registry.Control.Laws.{set_trigger_status-found}
use recur.Engine.{TriggerEvent, System, ok, dispatch_with_concurrency}
use recur.Engine.Dispatch.{dispatch}

-- Once a trigger is suspended, its events change nothing in the engine; once it is resumed, they are
-- dispatched in the trigger's own mode and queue size.
pub dispatch-suspend_trigger :
    (env : Env) (r : Registry) (identifier : String) (ref : EntityRef) (t : Trigger)
    (event : TriggerEvent) (s : System)
    → find_entity_by_type env r identifier "trigger" ≡ found ref
    → Dict.lookup ref.id r.triggers ≡ some t
    → (dispatch (get_trigger (suspend_trigger env r identifier).0 ref.id) event s ≡ ok s)
      × (dispatch (get_trigger (resume_trigger env r identifier).0 ref.id) event s
          ≡ dispatch_with_concurrency t.concurrency_mode t.max_queue_size event s)
unfolding suspend_trigger resume_trigger dispatch
dispatch-suspend_trigger env r identifier ref t event s finds at = (
  ap (λ f. dispatch (get_trigger (set_trigger_status status_suspended f r).0 ref.id) event s) finds
      ∙ ap (λ q. dispatch (get_trigger q.0 ref.id) event s)
          (set_trigger_status-found status_suspended ref t r at)
      ∙ ap (λ o. dispatch o event s)
          (lookup-insert_self ref.id (record t { status = status_suspended }) r.triggers),
  ap (λ f. dispatch (get_trigger (set_trigger_status status_active f r).0 ref.id) event s) finds
      ∙ ap (λ q. dispatch (get_trigger q.0 ref.id) event s)
          (set_trigger_status-found status_active ref t r at)
      ∙ ap (λ o. dispatch o event s)
          (lookup-insert_self ref.id (record t { status = status_active }) r.triggers),
)
