-- ===== src/Engine/Debounce/Coalescing.antt =====
-- A burst of events is passed on as its last event, once.
use recur.Prelude.{
  ℕ, zero, suc, ◌≡◌, refl, sym, ap, ◌∙◌, subst, Option, none, some, Bool, true, false, List, [],
  ◌∷◌, ◌++◌,
}
use recur.Engine.{TriggerEvent}
use recur.Engine.Debounce.{
  Debouncer, submit, expire, dispatch_pending, fire_at, fire, Reaches, start, then_submit,
  then_expire, then_fire,
}

-- The last item
unfoldable pub last : List TriggerEvent → Option TriggerEvent
last [] = none
last (x ∷ []) = some x
last (x ∷ y ∷ ys) = last (y ∷ ys)

last-append : (xs : List TriggerEvent) (x : TriggerEvent) → last (xs ++ x ∷ []) ≡ some x
unfolding last
last-append [] x = refl
last-append (y ∷ []) x = refl
last-append (y ∷ z ∷ zs) x = last-append (z ∷ zs) x

-- The first list is the second with some items left out.
pub data Among : List TriggerEvent → List TriggerEvent → Type 0 where
  none_left : Among [] []
  left_out : {xs ys : List TriggerEvent} (y : TriggerEvent) → Among xs ys → Among xs (y ∷ ys)
  kept : {xs ys : List TriggerEvent} (y : TriggerEvent) → Among xs ys → Among (y ∷ xs) (y ∷ ys)

Among-skip : {xs ys : List TriggerEvent} (x : TriggerEvent) → Among xs ys → Among xs (ys ++ x ∷ [])
Among-skip x none_left = left_out x none_left
Among-skip x (left_out y a) = left_out y (Among-skip x a)
Among-skip x (kept y a) = kept y (Among-skip x a)

Among-take :
    {xs ys : List TriggerEvent} (x : TriggerEvent)
    → Among xs ys
    → Among (xs ++ x ∷ []) (ys ++ x ∷ [])
Among-take x none_left = kept x none_left
Among-take x (left_out y a) = left_out y (Among-take x a)
Among-take x (kept y a) = kept y (Among-take x a)

-- What was passed on, with the event that waits.
abbrev pub flow : List TriggerEvent → Option TriggerEvent → List TriggerEvent
flow dispatched none = dispatched
flow dispatched (some event) = dispatched ++ event ∷ []

-- The last event that was submitted was passed on last, or waits; what was passed on or waits was
-- submitted, in this order; and where an event waits, a timer is set or runs its function.
pub record IsCoalescing (d : Debouncer) : Type 0 where
  pub newest : last d.submitted ≡ last (flow d.dispatched d.pending)
  pub in_order : Among (flow d.dispatched d.pending) d.submitted
  pub passed_in_order : Among d.dispatched d.submitted
  pub not_forgotten : d.timer_set ≡ false → d.firing ≡ 0 → d.pending ≡ none

some_eq : {d e : Debouncer} → some d ≡ some e → d ≡ e
some_eq h = cc h

submit-IsCoalescing :
    (event : TriggerEvent) (d : Debouncer) → IsCoalescing d → IsCoalescing (submit event d)
unfolding submit
submit-IsCoalescing event d h = record {
  newest = last-append d.submitted event ∙ sym (last-append d.dispatched event);
  in_order = Among-take event h.passed_in_order;
  passed_in_order = Among-skip event h.passed_in_order;
  not_forgotten = λ t. cc t;
}

expire-IsCoalescing : (d e : Debouncer) → expire d ≡ some e → IsCoalescing d → IsCoalescing e
unfolding expire
expire-IsCoalescing d e x h = cases d.timer_set refl
  where
    cases : (b : Bool) → d.timer_set ≡ b → IsCoalescing e
    cases false s = absurd (cc (rw s at x))
    cases true s =
        let p : record d { timer_set = false; firing = suc d.firing } ≡ e = some_eq (rw s at x) in
        subst IsCoalescing p (record {
          newest = h.newest;
          in_order = h.in_order;
          passed_in_order = h.passed_in_order;
          not_forgotten = λ t f. cc f;
        })

fire-IsCoalescing : (d e : Debouncer) → fire d ≡ some e → IsCoalescing d → IsCoalescing e
unfolding fire fire_at dispatch_pending
fire-IsCoalescing d e x h = cases d.firing d.pending refl refl x
  where
    cases :
        (n : ℕ) (o : Option TriggerEvent)
        → d.firing ≡ n
        → d.pending ≡ o
        → fire_at n d ≡ some e
        → IsCoalescing e
    cases zero o f w y = absurd (cc y)
    cases (suc n) none f w y = subst IsCoalescing (some_eq (rw w at y)) (record {
      newest = h.newest ∙ ap (λ q. last (flow d.dispatched q)) w;
      in_order = h.passed_in_order;
      passed_in_order = h.passed_in_order;
      not_forgotten = λ t k. refl;
    })
    cases (suc n) (some event) f w y = subst IsCoalescing (some_eq (rw w at y)) (record {
      newest = h.newest ∙ ap (λ q. last (flow d.dispatched q)) w;
      in_order = subst (λ q. Among (flow d.dispatched q) d.submitted) w h.in_order;
      passed_in_order = subst (λ q. Among (flow d.dispatched q) d.submitted) w h.in_order;
      not_forgotten = λ t k. refl;
    })

-- In any interleaving of submissions and timers, the event submitted last waits or was passed on last; the
-- events passed on, and the one that waits, were submitted in this order; and an event waits only
-- while a timer is set or runs its function.
pub Reaches-IsCoalescing : {d : Debouncer} → Reaches d → IsCoalescing d
unfolding last
Reaches-IsCoalescing start = record {
  newest = refl;
  in_order = none_left;
  passed_in_order = none_left;
  not_forgotten = λ t f. refl;
}
Reaches-IsCoalescing (then_submit {d} event r) =
    submit-IsCoalescing event d (Reaches-IsCoalescing r)
Reaches-IsCoalescing (then_expire {d} {e} r x) = expire-IsCoalescing d e x (Reaches-IsCoalescing r)
Reaches-IsCoalescing (then_fire {d} {e} r x) = fire-IsCoalescing d e x (Reaches-IsCoalescing r)
