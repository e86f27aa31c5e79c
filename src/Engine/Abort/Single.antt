-- ===== src/Engine/Abort/Single.antt =====
-- The state of a trigger in mode "abort" (engine.go), and lists of channels by position.
use recur.Prelude.{
  ℕ, zero, suc, ◌<◌, ◌≡◌, ◌⊎◌, inl, inr, refl, sym, ◌∙◌, Option, none, some, true, false, List, [],
  ◌∷◌, ◌++◌, ◌==◌, String_eq, ℕ_eq, Bool-cases, arith, if◌then◌else◌,
}
use recur.Engine.{
  TriggerEvent, abort_run, Worker, System, take_at, is_closed, Move, arrive, finish, close, proceed,
}

abbrev pub Aborts : System → Move → Type 0
Aborts s (arrive mode event) = mode ≡ "abort"
Aborts s (finish i) = Unit {0}
Aborts s (close i) = Unit {0}
Aborts s (proceed i) = Unit {0}

-- One dispatcher at a time: an event arrives only while no dispatcher waits, as when the trigger has
-- no debounce and its dispatch loop is the only caller.
abbrev pub AbortsAlone : System → Move → Type 0
AbortsAlone s (arrive mode event) = (mode ≡ "abort") × (s.waiting ≡ [])
AbortsAlone s (finish i) = Unit {0}
AbortsAlone s (close i) = Unit {0}
AbortsAlone s (proceed i) = Unit {0}

abbrev pub handles : ℕ → TriggerEvent → Worker
handles c event = record { kind = abort_run c; event = event }

-- No dispatcher waits, or one waits at the channel.
abbrev pub WaitsAt : ℕ → List (TriggerEvent × ℕ) → Type 0
WaitsAt c waiting = (waiting ≡ []) ⊎ ((event : TriggerEvent) × (waiting ≡ (event, c) ∷ []))

-- Exactly one run, whose channel is neither closed nor about to be.
pub record IsRunning (s : System) (c : ℕ) (event : TriggerEvent) : Type 0 where
  pub run : s.at.running ≡ true
  pub cancel : s.at.abort_cancel ≡ some c
  pub channel : s.at.abort_done ≡ some c
  pub work : s.workers ≡ handles c event ∷ []
  pub waits : WaitsAt c s.waiting
  pub open_channel : is_closed c s.closed ≡ false
  pub not_closing : is_closed c s.closing ≡ false
  pub made : c < s.next_channel

pub record IsIdle (s : System) (c : ℕ) : Type 0 where
  pub idle : s.at.running ≡ false
  pub no_work : s.workers ≡ []
  pub waits : WaitsAt c s.waiting

pub record IsSingle (s : System) : Type 0 where
  pub phase : ((c : ℕ) × (event : TriggerEvent) × IsRunning s c event) ⊎ ((c : ℕ) × IsIdle s c)
  pub closed_below : (c : ℕ) → is_closed c s.closed ≡ true → c < s.next_channel
  pub closing_below : (c : ℕ) → is_closed c s.closing ≡ true → c < s.next_channel

pub is_closed-append :
    (c d : ℕ) (ds : List ℕ) → is_closed c (ds ++ d ∷ []) ≡ (if d == c then true else is_closed c ds)
unfolding is_closed
is_closed-append c d [] = refl
is_closed-append c d (e ∷ ds) = ground (arith, is_closed-append c d ds)

-- The second clause of `take_at`, on what the first item's removal leaves.
abbrev pub behind : ℕ → Option (ℕ × List ℕ) → Option (ℕ × List ℕ)
behind d none = none
behind d (some (c, rest)) = some (c, d ∷ rest)

pub take_at-suc : (i d : ℕ) (ds : List ℕ) → take_at (suc i) (d ∷ ds) ≡ behind d (take_at i ds)
unfolding take_at
take_at-suc i d ds = ground arith

pub behind-some :
    (d : ℕ) (o : Option (ℕ × List ℕ)) {c : ℕ} {rest : List ℕ}
    → behind d o ≡ some (c, rest)
    → (rest' : List ℕ) × (o ≡ some (c, rest')) × (rest ≡ d ∷ rest')
behind-some d none h = cc h
behind-some d (some (c', rest')) h = (rest', cc h, cc h)

pub take_at-nil : (i : ℕ) → take_at {A = ℕ} i [] ≡ none
unfolding take_at
take_at-nil i = ground arith

pub take_at-zero : (d : ℕ) (ds : List ℕ) → take_at 0 (d ∷ ds) ≡ some (d, ds)
unfolding take_at
take_at-zero d ds = refl

-- What `take_at` takes is in the list, and the rest is of the list.
pub is_closed-take_at :
    (i : ℕ) (ds : List ℕ) {c : ℕ} {rest : List ℕ}
    → take_at i ds ≡ some (c, rest)
    → (e : ℕ) → is_closed e ds ≡ (if c == e then true else is_closed e rest)
unfolding is_closed
is_closed-take_at zero [] h e = cc (take_at-nil 0)
is_closed-take_at (suc i) [] h e = cc (take_at-nil (suc i))
is_closed-take_at zero (d ∷ ds) {c} {rest} h e =
    let first : d ≡ c = cc (take_at-zero d ds) in
    let tail : ds ≡ rest = cc (take_at-zero d ds) in rw (first, tail)
is_closed-take_at (suc i) (d ∷ ds) {c} {rest} h e =
    let (rest', h', same) = behind-some d (take_at i ds) (sym (take_at-suc i d ds) ∙ h) in
    rw same (ground (arith, is_closed-take_at i ds h' e))

pub not_closed_next :
    (s : System) (ds : List ℕ)
    → ((c : ℕ) → is_closed c ds ≡ true → c < s.next_channel)
    → is_closed s.next_channel ds ≡ false
not_closed_next s ds h = elim (Bool-cases (is_closed s.next_channel ds)) [
  | inl t ↦ absurd (omega (arith, h s.next_channel t))
  | inr f ↦ f
]

-- A run that starts when no other runs and no dispatcher waits is the only one.
