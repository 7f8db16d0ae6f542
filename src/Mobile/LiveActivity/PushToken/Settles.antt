-- ===== src/Mobile/LiveActivity/PushToken/Settles.antt =====
-- What a wait for a token resolves to.
use unity_runn.Prelude.{
  String, ◌≡◌, refl, arith, is_some, Option, none, some, List, [], ◌∷◌, ◌++◌, Bool, true, false,
  not, truthy, if◌then◌else◌, Bool-cases, inl, inr, ◌∙◌,
}
use unity_runn.Mobile.LiveActivity.PushToken.{
  Wait, Event, notified, fetched, failed, timeout, Subscribing, initial, remove_listener, finish,
  notify, notify_all, subscribe, await_push_token, step, run,
}

-- The first token that is not empty
abbrev pub first_of : List String → Option String
first_of [] = none
first_of (t ∷ ts) = if truthy t then some t else first_of ts

-- The first event that gives a token, or the timeout with none; a source that could not be subscribed to
-- is not heard.
abbrev pub first_event : Bool → List Event → Option String
first_event heard [] = none
first_event heard (notified t ∷ es) =
    let rest = first_event heard es in if heard then (if truthy t then some t else rest) else rest
first_event heard (fetched none ∷ es) = first_event heard es
first_event heard (fetched (some t) ∷ es) =
    let rest = first_event heard es in if truthy t then some t else rest
first_event heard (failed ∷ es) = first_event heard es
first_event heard (timeout ∷ es) = some ""

abbrev pub or_later : Option String → Option String → Option String
or_later (some t) o = some t
or_later none o = o

abbrev pub listed : Option String → List String
listed none = []
listed (some t) = t ∷ []

-- A wait that is open or has been settled with one token
abbrev Open : Bool → Wait
Open heard = record initial { subscription = heard; listening = heard; asked = true }

abbrev Done : Wait → Type 0
Done w = (w.settled ≡ true) × (w.timer ≡ false) × (w.listening ≡ false)

settled-finish : (t : String) (w : Wait) → w.settled ≡ true → finish t w ≡ w
unfolding finish
settled-finish t w e = rw e refl

settled-step : (e : Event) (w : Wait) → Done w → step e w ≡ w
unfolding step notify
settled-step (notified t) w (d, t0, l) = rw l refl
settled-step (fetched none) w d = refl
settled-step (fetched (some t)) w (d, t0, l) = ground (arith, settled-finish t w d)
settled-step failed w d = refl
settled-step timeout w (d, t0, l) = rw t0 refl

settled-run : (es : List Event) (w : Wait) → Done w → run es w ≡ w
unfolding run
settled-run [] w d = refl
settled-run (e ∷ es) w d = rw (settled-step e w d) (settled-run es w d)

abbrev closed : Bool → String → Wait
closed asked t = record {
  settled = true;
  subscription = false;
  listening = false;
  timer = false;
  asked = asked;
  resolved = t ∷ [];
}

finish-Open : (heard : Bool) (t : String) → finish t (Open heard) ≡ closed true t
unfolding finish remove_listener
finish-Open true t = refl
finish-Open false t = refl

abbrev outcome : Bool → Option String → Wait
outcome heard none = Open heard
outcome heard (some t) = closed true t

run-Open :
    (heard : Bool) (es : List Event) → run es (Open heard) ≡ outcome heard (first_event heard es)
unfolding run step notify
run-Open heard [] = refl
run-Open true (notified t ∷ es) = elim (Bool-cases (truthy t)) [
  | inl e ↦ rw (e, finish-Open true t) (settled-run es (closed true t) (refl, refl, refl))
  | inr e ↦ rw e (run-Open true es)
]
run-Open false (notified t ∷ es) = run-Open false es
run-Open heard (fetched none ∷ es) = run-Open heard es
run-Open heard (fetched (some t) ∷ es) = elim (Bool-cases (truthy t)) [
  | inl e ↦ rw (e, finish-Open heard t) (settled-run es (closed true t) (refl, refl, refl))
  | inr e ↦ rw e (run-Open heard es)
]
run-Open heard (failed ∷ es) = run-Open heard es
run-Open heard (timeout ∷ es) =
    rw (finish-Open heard "") (settled-run es (closed true "") (refl, refl, refl))

-- While the source subscribes
abbrev during : Bool → Wait
during r = record initial { listening = r }

abbrev early : Bool → Option String → Wait
early r none = during r
early r (some t) = record (closed false t) { listening = r }

notify-settled : (t : String) (w : Wait) → w.settled ≡ true → notify t w ≡ w
unfolding notify
notify-settled t w e = ground (arith, settled-finish t w e)

notify_all-settled : (ts : List String) (w : Wait) → w.settled ≡ true → notify_all ts w ≡ w
unfolding notify_all
notify_all-settled [] w e = refl
notify_all-settled (t ∷ ts) w e = rw (notify-settled t w e) (notify_all-settled ts w e)

finish-during : (r : Bool) (t : String) → finish t (during r) ≡ early r (some t)
unfolding finish remove_listener
finish-during r t = refl

notify_all-during : (r : Bool) (ts : List String) → notify_all ts (during r) ≡ early r (first_of ts)
unfolding notify_all notify
notify_all-during r [] = refl
notify_all-during r (t ∷ ts) = elim (Bool-cases (truthy t)) [
  | inl e ↦ rw (e, finish-during r t) (notify_all-settled ts (early r (some t)) refl)
  | inr e ↦ rw e (notify_all-during r ts)
]

abbrev begun : Bool → Option String → Wait
begun r none = Open r
begun r (some t) = closed false t

await_push_token-begun :
    (s : Subscribing) → await_push_token s ≡ begun s.returns (first_of s.delivered)
unfolding await_push_token subscribe remove_listener
await_push_token-begun s =
    rw (notify_all-during s.returns s.delivered) (subscribed s.returns (first_of s.delivered))
  where
    ended : Bool → Wait → Wait
    ended r w' =
        let w =
          if r
          then (let set = record w' { subscription = true } in
              if set.settled then remove_listener set else set)
          else w' in
        record w { asked = not w.settled }

    subscribed : (r : Bool) (o : Option String) → ended r (early r o) ≡ begun r o
    subscribed true none = refl
    subscribed true (some t) = refl
    subscribed false none = refl
    subscribed false (some t) = refl

abbrev pub answer : Subscribing → List Event → Option String
answer s es = or_later (first_of s.delivered) (first_event s.returns es)

-- What a wait holds once its value is known or not
abbrev pub Holds : Wait → Bool → Option String → Type 0
Holds w heard a =
    (w.resolved ≡ listed a)
    × (w.settled ≡ is_some a)
    × (w.timer ≡ not (is_some a))
    × (w.listening ≡ (if is_some a then false else heard))

Holds-outcome : (heard : Bool) (a : Option String) → Holds (outcome heard a) heard a
Holds-outcome heard none = (refl, refl, refl, refl)
Holds-outcome heard (some t) = (refl, refl, refl, refl)

await-outcome :
    (s : Subscribing) (es : List Event) (o : Option String)
    → first_of s.delivered ≡ o
    → Holds (run es (await_push_token s)) s.returns (or_later o (first_event s.returns es))
await-outcome s es (some t) e =
    rw (await_push_token-begun s, e)
      (rw (settled-run es (closed false t) (refl, refl, refl)) (refl, refl, refl, refl))
await-outcome s es none e =
    rw (await_push_token-begun s, e)
      (rw (run-Open s.returns es) (Holds-outcome s.returns (first_event s.returns es)))

-- Whatever the order of events, the wait resolves once at most: with the first token that is not empty,
-- whether it is delivered while subscribing, to the listener or by the getter, or with the empty text
-- where the timeout comes before; and once it has resolved it holds neither the timer nor the listener,
-- which it holds until then, the listener where the source could be subscribed to.
pub await_push_token-first :
    (s : Subscribing) (es : List Event)
    → ((run es (await_push_token s)).resolved ≡ listed (answer s es))
      × ((run es (await_push_token s)).settled ≡ is_some (answer s es))
      × ((run es (await_push_token s)).timer ≡ not (is_some (answer s es)))
      × ((run es (await_push_token s)).listening
          ≡ (if is_some (answer s es) then false else s.returns))
await_push_token-first s es = await-outcome s es (first_of s.delivered) refl

-- The wait does not hang: it has resolved once the timeout has come.
pub await_push_token-ends :
    (s : Subscribing) (es later : List Event)
    → (run (es ++ (timeout ∷ later)) (await_push_token s)).settled ≡ true
await_push_token-ends s es later =
    (let (value, settled, timer, listener) = await_push_token-first s (es ++ (timeout ∷ later)) in
      settled)
    ∙ timed (first_event s.returns (es ++ (timeout ∷ later))) (first_of s.delivered)
        (first_timeout s.returns es later)
  where
    first_timeout :
        (heard : Bool) (es later : List Event)
        → is_some (first_event heard (es ++ (timeout ∷ later))) ≡ true
    first_timeout heard [] later = refl
    first_timeout heard (notified t ∷ es) later = ground (arith, first_timeout heard es later)
    first_timeout heard (fetched none ∷ es) later = first_timeout heard es later
    first_timeout heard (fetched (some t) ∷ es) later = ground (arith, first_timeout heard es later)
    first_timeout heard (failed ∷ es) later = first_timeout heard es later
    first_timeout heard (timeout ∷ es) later = refl

    timed : (a o : Option String) → is_some a ≡ true → is_some (or_later o a) ≡ true
    timed a none h = h
    timed a (some t) h = refl
