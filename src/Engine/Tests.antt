-- ===== src/Engine/Tests.antt =====
-- Runs of one active trigger of engine.go, and the claims about it at concrete inputs.
use recur.Prelude.{
  String, In, inl, keep, String_eq, List, false, none, some, ◌≡◌, refl, true, [], ◌∷◌, ◌≤◌, length,
  ◌+◌,
}
use recur.Prelude.Int.{pos}
use recur.Prelude.Dict
use recur.Config.{no_fields}
use recur.Domain.{Trigger, status_active}
use recur.Engine.Lifecycle.{
  Call, driver, activate_call, stop_all_call, set_timer_call, run, new_engine, activate, set_timer,
  deactivate, stop_all,
}
use recur.Engine.Lifecycle.Timers.{Owns, run-Owns}
use recur.Engine.Lifecycle.Tracked.{IsTracked, run-IsTracked, new-IsTracked}
use recur.Engine.Debounce.{
  Debouncer, submit, expire, fire, quiet, Reaches as Settles, start as settled, then_submit,
  then_expire, then_fire,
}
use recur.Engine.Debounce.Coalescing.{IsCoalescing, Reaches-IsCoalescing}
use recur.Engine.Router.{
  Router, Channel, send, process_exited, panicked as send_panics, send-process_exited,
}
use recur.Engine.{
  queue_run, drop_run, abort_run, TriggerEvent, System, activated, panicked, arrive, step, start,
  ok, then_move, Reaches,
}
use recur.Engine.Queue.{
  FallsToQueue, IsSequential, queue_mode-IsSequential, abort_after_queue_panics,
}
use recur.Engine.Termination.{run_moves, work_left, run_moves-work_left}
use recur.Engine.Queue.Draining.{finishes, IsDrained, queue_mode_drains}
use recur.Engine.Drop.{Drops, IsExclusive, drop_mode-IsExclusive}
use recur.Engine.Abort.Single.{AbortsAlone, Aborts}
use recur.Engine.Abort.{abort_mode_exclusive, abort_mode_overlaps}

abbrev created : TriggerEvent
created = record { trigger_type = "FileCreated"; context = [] }

abbrev moved : TriggerEvent
moved = record { trigger_type = "FileMoved"; context = [] }

-- Two events: the first is being handled, the second is queued.
abbrev two_queued : System
two_queued = record activated {
  at = record activated.at { running = true; queue = moved ∷ [] };
  workers = (record { kind = queue_run; event = created }) ∷ [];
  accepted = created ∷ moved ∷ [];
  started = created ∷ [];
}

two_queued_reached : Reaches FallsToQueue (pos 4) two_queued
unfolding step
two_queued_reached =
    then_move (arrive "" moved) (then_move (arrive "queue" created) start (refl, refl, refl) refl)
      (refl, refl, refl) refl

queue_mode-IsSequential_example : IsSequential (pos 4) two_queued
queue_mode-IsSequential_example = queue_mode-IsSequential (pos 4) two_queued_reached

abort_after_queue_panics_example : step (pos 4) (arrive "abort" moved) two_queued ≡ panicked
abort_after_queue_panics_example = abort_after_queue_panics (pos 4) moved two_queued_reached refl

abbrev both_done : System
both_done = record activated { accepted = created ∷ moved ∷ []; started = created ∷ moved ∷ [] }

two_finish : run_moves (pos 4) (finishes 2) two_queued ≡ ok both_done
unfolding run_moves step
two_finish = refl

run_moves-work_left_example : 2 + work_left both_done ≤ work_left two_queued
run_moves-work_left_example =
    run_moves-work_left (pos 4) (finishes 2) two_queued {t = both_done} (tt, (tt, tt)) two_finish

queue_mode_drains_example :
    (t : System) × (run_moves (pos 4) (finishes 2) two_queued ≡ ok t)
    × IsDrained (created ∷ moved ∷ []) t
queue_mode_drains_example = queue_mode_drains (pos 4) two_queued queue_mode-IsSequential_example

abbrev one_dropped : System
one_dropped = record activated {
  at = record activated.at { running = true };
  workers = (record { kind = drop_run; event = created }) ∷ [];
  accepted = created ∷ [];
  started = created ∷ [];
  dropped = moved ∷ [];
}

one_dropped_reached : Reaches Drops (pos 0) one_dropped
unfolding step
one_dropped_reached =
    then_move (arrive "drop" moved) (then_move (arrive "drop" created) start refl refl) refl refl

drop_mode-IsExclusive_example : IsExclusive one_dropped
drop_mode-IsExclusive_example = drop_mode-IsExclusive (pos 0) one_dropped_reached

abbrev one_waiting : System
one_waiting = record activated {
  at = record activated.at { running = true; abort_cancel = some 0; abort_done = some 0 };
  workers = (record { kind = abort_run 0; event = created }) ∷ [];
  waiting = (moved, 0) ∷ [];
  cancelled = 0 ∷ [];
  next_channel = 1;
  accepted = created ∷ [];
  started = created ∷ [];
}

one_waiting_reached : Reaches AbortsAlone (pos 0) one_waiting
unfolding step
one_waiting_reached =
    then_move (arrive "abort" moved) (then_move (arrive "abort" created) start (refl, refl) refl)
      (refl, refl) refl

abort_mode_exclusive_example : length one_waiting.workers ≤ 1
abort_mode_exclusive_example = abort_mode_exclusive (pos 0) one_waiting_reached

abort_mode_overlaps_example : (s : System) × Reaches Aborts (pos 0) s × (length s.workers ≡ 2)
abort_mode_overlaps_example = abort_mode_overlaps (pos 0) created moved created

abbrev quick : Trigger
quick = record {
  id = "t";
  type = "cron";
  name = "";
  group_id = "g";
  group_name = "g";
  recurfile_id = "r";
  recurfile_path = "/r";
  plugin_id = "";
  options = no_fields;
  status = status_active;
  error_count = pos 0;
  error_threshold = pos 3;
  last_fired = 0;
  concurrency_mode = "queue";
  max_queue_size = pos 4;
  debounce = pos 1;
}

-- Two triggers are asked for; the driver of the second does not start. Then all are stopped.
abbrev calls : List Call
calls =
    activate_call ((λ t. driver none) ∷ []) quick
    ∷ activate_call ((λ t. driver (some "no process")) ∷ []) (record quick { id = "u" })
    ∷ stop_all_call
    ∷ []

-- Of two events within one debounce, the second has the timer; Deactivate stops it.
abbrev debounced : List Call
debounced =
    activate_call ((λ t. driver none) ∷ []) quick ∷ set_timer_call "t" ∷ set_timer_call "t" ∷ []

timers_test : (run debounced new_engine).timers ≡ 1 ∷ []
unfolding run activate set_timer Dict.lookup Dict.insert keep
timers_test = refl

deactivate-timers_test : (deactivate "t" (run debounced new_engine)).timers ≡ []
unfolding run activate set_timer deactivate Dict.lookup Dict.insert keep
deactivate-timers_test = refl

-- StopAll does not stop it.
stop_all-timers_test : (stop_all (run debounced new_engine)).timers ≡ 1 ∷ []
unfolding run activate set_timer stop_all Dict.lookup Dict.insert Dict.remove keep
stop_all-timers_test = refl

timer_set_test : In 1 (run debounced new_engine).timers
unfolding run activate set_timer Dict.lookup Dict.insert keep
timer_set_test = inl refl

not_stopped_test : (run debounced new_engine).stopped ≡ false
unfolding run activate set_timer Dict.lookup Dict.insert
not_stopped_test = refl

run-Owns_example : (id : String) × Owns (run debounced new_engine).active 1 id
run-Owns_example = run-Owns debounced 1 timer_set_test not_stopped_test

run-IsTracked_example : IsTracked (run calls new_engine)
run-IsTracked_example = run-IsTracked calls new_engine new-IsTracked

-- Two events within one debounce; the timer runs out, and its function passes the second on.
abbrev burst : Debouncer
burst = record quiet { submitted = created ∷ moved ∷ []; dispatched = moved ∷ [] }

burst_reached : Settles burst
unfolding submit expire fire
burst_reached =
    then_fire {d = record burst { pending = some moved; firing = 1; dispatched = [] }}
      (then_expire {d = record burst { pending = some moved; timer_set = true; dispatched = [] }}
        (then_submit moved (then_submit created settled)) refl)
      refl

Reaches-IsCoalescing_example : IsCoalescing burst
Reaches-IsCoalescing_example = Reaches-IsCoalescing burst_reached

abbrev channel : Channel
channel = record { buffer = []; capacity = 16; closed = false }

abbrev router : Router
router = record { channels = ("t", 0) ∷ []; opened = (0, channel) ∷ [] }

send-process_exited_example :
    (send "t" (Dict.lookup "t" router.channels) created (process_exited "t" 0 router)).1
    ≡ send_panics
unfolding Dict.lookup
send-process_exited_example = send-process_exited "t" 0 channel created router refl refl
