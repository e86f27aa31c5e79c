-- ===== src/Engine/Router.antt =====
-- src/app/recurd/triggerengine/router.go, and the parts of external.go that open and close the channel
-- of a driver. Deliver reads the map under the lock and sends after it has given the lock up, so it
-- is two steps.
use recur.Prelude.{
  ℕ, String, ◌≡◌, refl, ap, ◌∙◌, Bool-cases, Option-cases, inl, inr, ◌≤◌, ◌<◌, Option, none, some,
  Bool, true, false, List, [], ◌∷◌, ◌++◌, length, leb, String_eq, ℕ_eq, if◌then◌else◌, arith,
}
use recur.Prelude.Dict
use recur.Prelude.Dict.{Dict, lookup-insert_self, lookup-remove_self}
use recur.Engine.{TriggerEvent}

-- A buffered channel that nobody has read from since
pub record Channel : Type 0 where
  pub buffer : List TriggerEvent
  pub capacity : ℕ
  pub closed : Bool

-- PluginEventRouter, and the channels that it names
pub record Router : Type 0 where
  pub channels : Dict String ℕ
  pub opened : Dict ℕ Channel

-- NewPluginEventRouter
abbrev pub new_router : Router
new_router = record { channels = []; opened = [] }

-- Register
unfoldable pub register : String → ℕ → Router → Router
register trigger_id ch r = record r { channels = Dict.insert trigger_id ch r.channels }

-- Deregister
unfoldable pub deregister : String → Router → Router
deregister trigger_id r = record r { channels = Dict.remove trigger_id r.channels }

-- The results of Deliver; `panicked` is a send on a closed channel.
pub data Delivery : Type 0 where
  delivered : Delivery
  not_registered : String → Delivery
  channel_full : String → Delivery
  panicked : Delivery

send_to : String → ℕ → TriggerEvent → Option Channel → Router → Router × Delivery
send_to trigger_id ch event none r = (r, channel_full trigger_id)
send_to trigger_id ch event (some c) r =
    if c.closed
    then (r, panicked)
    else if leb c.capacity (length c.buffer)
    then (r, channel_full trigger_id)
    else (
      record r { opened = Dict.insert ch (record c { buffer = c.buffer ++ event ∷ [] }) r.opened },
      delivered,
    )

-- The `select` of Deliver. A channel that was never made is nil, and a send on it is never ready.
unfoldable pub send : String → Option ℕ → TriggerEvent → Router → Router × Delivery
unfolding send_to
send trigger_id none event r = (r, not_registered trigger_id)
send trigger_id (some ch) event r = send_to trigger_id ch event (Dict.lookup ch r.opened) r

-- Deliver, where nothing comes between its two steps
unfoldable pub deliver : String → TriggerEvent → Router → Router × Delivery
unfolding send
deliver trigger_id event r = send trigger_id (Dict.lookup trigger_id r.channels) event r

close_channel : ℕ → Option Channel → Dict ℕ Channel → Dict ℕ Channel
close_channel ch none opened = opened
close_channel ch (some c) opened = Dict.insert ch (record c { closed = true }) opened

-- monitorProcess, after the process has exited: Deregister, then close(d.events)
unfoldable pub process_exited : String → ℕ → Router → Router
unfolding deregister close_channel
process_exited trigger_id ch r =
    let r' = deregister trigger_id r in
    record r' { opened = close_channel ch (Dict.lookup ch r'.opened) r'.opened }

-- When nothing comes between the lookup and the send, Deliver appends the event to the open channel of
-- the trigger if there is room, and otherwise changes nothing; after the process has exited it finds
-- no channel.
pub deliver_lem :
    (trigger_id : String) (ch : ℕ) (c : Channel) (event : TriggerEvent) (r : Router)
    → Dict.lookup trigger_id r.channels ≡ some ch
    → Dict.lookup ch r.opened ≡ some c
    → c.closed ≡ false
    → (length c.buffer < c.capacity
        → ((deliver trigger_id event r).1 ≡ delivered)
          × (Dict.lookup ch (deliver trigger_id event r).0.opened
              ≡ some (record c { buffer = c.buffer ++ event ∷ [] })))
      × (c.capacity ≤ length c.buffer → deliver trigger_id event r ≡ (r, channel_full trigger_id))
      × ((deliver trigger_id event (process_exited trigger_id ch r)).1 ≡ not_registered trigger_id)
unfolding deliver send send_to process_exited deregister
deliver_lem trigger_id ch c event r named opened on = (
  λ room.
      let p = before ∙ chosen false (ground arith) in
      (
        ap (λ q. q.1) p,
        ap (λ q. Dict.lookup ch q.0.opened) p
            ∙ lookup-insert_self ch (record c { buffer = c.buffer ++ event ∷ [] }) r.opened,
      ),
  λ full. before ∙ chosen true (ground arith),
  ap (λ o. (send trigger_id o event (process_exited trigger_id ch r)).1)
      (lookup-remove_self trigger_id r.channels),
)
  where
    outcome : Bool → Router × Delivery
    outcome b = if b then (r, channel_full trigger_id) else (
      record r { opened = Dict.insert ch (record c { buffer = c.buffer ++ event ∷ [] }) r.opened },
      delivered,
    )

    before : deliver trigger_id event r ≡ outcome (leb c.capacity (length c.buffer))
    before =
        ap (λ o. send trigger_id o event r) named
        ∙ ap (λ o. send_to trigger_id ch event o r) opened
        ∙ ap (λ b. if b then (r, panicked) else outcome (leb c.capacity (length c.buffer))) on

    chosen :
        (b : Bool)
        → leb c.capacity (length c.buffer) ≡ b
        → outcome (leb c.capacity (length c.buffer)) ≡ outcome b
    chosen b h = ap outcome h

-- The event was appended to an open channel with room for it, the one that the router has for the
-- trigger.
abbrev pub IsAppended : String → TriggerEvent → Router → Router → Type 0
IsAppended trigger_id event r r' =
    (ch : ℕ) × (c : Channel) × (Dict.lookup trigger_id r.channels ≡ some ch)
    × (Dict.lookup ch r.opened ≡ some c)
    × (c.closed ≡ false)
    × (length c.buffer < c.capacity)
    × (r' ≡ record r {
      opened = Dict.insert ch (record c { buffer = c.buffer ++ event ∷ [] }) r.opened;
    })

send-IsAppended :
    (trigger_id : String) (named : Option ℕ) (event : TriggerEvent) (r : Router)
    → Dict.lookup trigger_id r.channels ≡ named
    → (send trigger_id named event r).1 ≡ delivered
    → IsAppended trigger_id event r (send trigger_id named event r).0
unfolding send send_to
send-IsAppended trigger_id none event r named h = absurd (cc h)
send-IsAppended trigger_id (some ch) event r named h =
    elim (Option-cases (Dict.lookup ch r.opened)) [
      | inl e ↦ absurd (cc (rw e at h))
      | inr (c, e) ↦ elim (Bool-cases c.closed) [
        | inl shut ↦ absurd (cc (rw (e, shut) at h))
        | inr on ↦ elim (Bool-cases (leb c.capacity (length c.buffer))) [
          | inl full ↦ absurd (cc (rw (e, on, full) at h))
          | inr room ↦ (ch, c, named, e, on, ground (arith, room), rw (e, on, room) refl)
        ]
      ]
    ]

-- Deliver answers that the event was delivered only if it was appended to the trigger's channel.
pub deliver-IsAppended :
    (trigger_id : String) (event : TriggerEvent) (r : Router)
    → (deliver trigger_id event r).1 ≡ delivered
    → IsAppended trigger_id event r (deliver trigger_id event r).0
unfolding deliver
deliver-IsAppended trigger_id event r h =
    send-IsAppended trigger_id (Dict.lookup trigger_id r.channels) event r refl h

-- If the process exits between the lookup and the send of Deliver, the send panics.
pub send-process_exited :
    (trigger_id : String) (ch : ℕ) (c : Channel) (event : TriggerEvent) (r : Router)
    → Dict.lookup trigger_id r.channels ≡ some ch
    → Dict.lookup ch r.opened ≡ some c
    → (send trigger_id (Dict.lookup trigger_id r.channels) event (process_exited trigger_id ch r)).1
      ≡ panicked
unfolding send send_to process_exited deregister close_channel
send-process_exited trigger_id ch c event r named opened =
    ap (λ o. (send trigger_id o event (process_exited trigger_id ch r)).1) named
    ∙ ap (λ o. (send_to trigger_id ch event o (process_exited trigger_id ch r)).1)
        (ap (λ o. Dict.lookup ch (close_channel ch o r.opened)) opened
          ∙ lookup-insert_self ch (record c { closed = true }) r.opened)
