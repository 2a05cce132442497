-- ===== src/Router/Delivery.antt =====
-- What a broadcast leaves in the queues of the subscribers.
use mathlib.Core.List.{append-nil}
use glady_s.Prelude.{
  ◌≤◌, ◌<◌, ◌≡◌, refl, sym, ap, ◌∙◌, ◌⊎◌, inl, inr, String, Bool, true, false, not, ◌&&◌, Option,
  none, some, eq_iff, List, [], ◌∷◌, ◌++◌, ◌==◌, arith,
}
use glady_s.Prelude.Tests.{if_both, leb, Bool-cases, if◌then◌else◌}
use glady_s.Prelude.Lists.{length, exists, All, length-append}
use glady_s.Prelude.Dict
use glady_s.Prelude.Dict.{Dict}
use glady_s.Event.{Event}
use glady_s.EventQueue.Process.{Broadcast}
use glady_s.Router.{
  Subscriber, ResponseSubscriber, EventRouter, put_nowait, passes, deliver_event, on_values,
  broadcast_to_subscribers, add_subscriber, remove_subscriber, add_response_subscriber,
  remove_response_subscriber, deliver_response, broadcast_response, wants, queue_maxsize,
}

-- Room for one more.
abbrev pub has_room {ℓ} : {A : Type ℓ} → List A → Bool
has_room queue = not (leb queue_maxsize (length queue))

get-on_values {ℓ} :
    {A : Type ℓ} (f : A → A) (id : String) (x : A) (d : Dict A)
    → Dict.get id d ≡ some x
    → Dict.get id (on_values f d) ≡ some (f x)
unfolding Dict.get
get-on_values f id x [] h = ground arith
get-on_values f id x ((key, y) ∷ d) h = ground (arith, get-on_values f id x d)

deliver_event_cases :
    (event : Event) (s : Subscriber)
    → deliver_event event s ≡ record s {
      queue =
          s.queue
          ++ (if passes s.source_filters event.source && has_room s.queue then event ∷ [] else []);
    }
unfolding deliver_event put_nowait
deliver_event_cases event s =
    let same : s ≡ record s { queue = s.queue ++ [] } =
      ap (λ q. record s { queue = q }) (sym (append-nil s.queue)) in
    elim (Bool-cases (passes s.source_filters event.source)) [
      | inl e ↦ elim (Bool-cases (leb queue_maxsize (length s.queue))) [
        | inl full ↦ rw (e, full) same
        | inr room ↦ rw (e, room) refl
      ]
      | inr e ↦ rw e same
    ]

-- A subscriber whose filters pass the event's source has it at the end of its queue, if there is
-- room; the queue of any other stays, and so does everything else of a subscriber.
pub get-broadcast_to_subscribers :
    (event : Event) (id : String) (s : Subscriber) (r : EventRouter)
    → Dict.get id r.subscribers ≡ some s
    → Dict.get id (broadcast_to_subscribers event r).subscribers
      ≡ some (record s {
        queue =
            s.queue
            ++ (if passes s.source_filters event.source && has_room s.queue
                then event ∷ []
                else []);
      })
unfolding broadcast_to_subscribers
get-broadcast_to_subscribers event id s r h =
    get-on_values (deliver_event event) id s r.subscribers h ∙ ap some (deliver_event_cases event s)

-- The source is one of the list.
abbrev pub IsOneOf : String → List String → Type 0
IsOneOf source [] = ⊥
IsOneOf source (f ∷ fs) = (f ≡ source) ⊎ IsOneOf source fs

-- There are no filters, or the source is one of them.
abbrev pub Admits : Option (List String) → String → Type 0
Admits none source = Unit {0}
Admits (some []) source = Unit {0}
Admits (some (f ∷ fs)) source = IsOneOf source (f ∷ fs)

exists-IsOneOf :
    (source : String) (fs : List String)
    → (exists (λ g. g == source) fs ≡ true → IsOneOf source fs)
      × (IsOneOf source fs → exists (λ g. g == source) fs ≡ true)
exists-IsOneOf source [] = (λ e. absurd (ground arith), λ h. absurd h)
exists-IsOneOf source (f ∷ fs) =
    let (there, back) = exists-IsOneOf source fs in
    elim (Bool-cases (f == source)) [
      | inl e ↦ (λ k. inl ((eq_iff f source).0 e), λ h. rw e refl)
      | inr e ↦ (
        λ k. inr (there (rw e at k)),
        λ h. elim h [
          | inl same ↦ absurd (ground (arith, eq_iff f source))
          | inr later ↦ rw e (back later)
        ],
      )
    ]

passes-Admits :
    (filters : Option (List String)) (source : String)
    → (passes filters source ≡ true → Admits filters source)
      × (Admits filters source → passes filters source ≡ true)
passes-Admits none source = (λ e. tt, λ h. refl)
passes-Admits (some []) source = (λ e. tt, λ h. refl)
passes-Admits (some (f ∷ fs)) source = exists-IsOneOf source (f ∷ fs)

-- A subscriber that admits the source and has fewer than 1000 events waiting gets the event behind
-- them; any other keeps its queue.
abbrev pub IsTold : Event → Subscriber → Option Subscriber → Type 0
IsTold event s found =
    (s' : Subscriber) × (found ≡ some s')
    × (Admits s.source_filters event.source
        → length s.queue < 1000
        → s'.queue ≡ s.queue ++ event ∷ [])
    × ((Admits s.source_filters event.source → 1000 ≤ length s.queue) → s'.queue ≡ s.queue)

pub broadcast_to_subscribers-IsTold :
    (event : Event) (id : String) (s : Subscriber) (r : EventRouter)
    → Dict.get id r.subscribers ≡ some s
    → IsTold event s (Dict.get id (broadcast_to_subscribers event r).subscribers)
broadcast_to_subscribers-IsTold event id s r there =
    let (admits, back) = passes-Admits s.source_filters event.source in
    (
      _,
      get-broadcast_to_subscribers event id s r there,
      λ admitted room.
          let passed = back admitted in
          let free : has_room s.queue ≡ true = ground arith in rw (passed, free) refl,
      λ full. elim (Bool-cases (passes s.source_filters event.source)) [
        | inl passed ↦
            let many = full (admits passed) in
            let crowded : has_room s.queue ≡ false = ground arith in
            rw (passed, crowded) (append-nil s.queue)
        | inr stopped ↦ rw stopped (append-nil s.queue)
      ],
    )

-- The router's methods on subscribers.
pub data Call : Type 0 where
  adds : String → Option (List String) → Option (List String) → Call
  removes : String → Call
  adds_response : String → Option (List String) → Bool → Call
  removes_response : String → Call
  sends : Event → Call
  sends_response : Broadcast → Call

unfoldable pub call : Call → EventRouter → EventRouter
call (adds id filters types) r = add_subscriber id filters types r
call (removes id) r = remove_subscriber id r
call (adds_response id filters immediate) r = add_response_subscriber id filters immediate r
call (removes_response id) r = remove_response_subscriber id r
call (sends event) r = broadcast_to_subscribers event r
call (sends_response b) r = broadcast_response b r

unfoldable pub call_all : List Call → EventRouter → EventRouter
unfolding call
call_all [] r = r
call_all (c ∷ cs) r = call_all cs (call c r)

-- No queue is longer than its maximum.
abbrev pub IsBounded : EventRouter → Type 0
IsBounded r =
    All (λ (x : String × Subscriber). length x.1.queue ≤ queue_maxsize) r.subscribers
    × All (λ (x : String × ResponseSubscriber). length x.1.queue ≤ queue_maxsize)
        r.response_subscribers

put-All {ℓ} :
    {A : Type ℓ} (P : A → Type 0) (id : String) (x : A) (d : Dict A)
    → P x
    → All (λ (y : String × A). P y.1) d
    → All (λ (y : String × A). P y.1) (Dict.put id x d)
unfolding Dict.put
put-All P id x [] h hs = (h, tt)
put-All P id x ((key, y) ∷ d) h hs = elim (Bool-cases (key == id)) [
  | inl e ↦ rw e (h, hs.1)
  | inr e ↦ rw e (hs.0, put-All P id x d h hs.1)
]

remove-All {ℓ} :
    {A : Type ℓ} (P : A → Type 0) (id : String) (d : Dict A)
    → All (λ (y : String × A). P y.1) d
    → All (λ (y : String × A). P y.1) (Dict.remove id d)
unfolding Dict.remove
remove-All P id [] hs = tt
remove-All P id ((key, y) ∷ d) hs = elim (Bool-cases (key == id)) [
  | inl e ↦ rw e (remove-All P id d hs.1)
  | inr e ↦ rw e (hs.0, remove-All P id d hs.1)
]

on_values-All {ℓ} :
    {A : Type ℓ} (P : A → Type 0) (f : A → A) (d : Dict A)
    → ((x : A) → P x → P (f x))
    → All (λ (y : String × A). P y.1) d
    → All (λ (y : String × A). P y.1) (on_values f d)
on_values-All P f [] h hs = tt
on_values-All P f ((key, y) ∷ d) h hs = (h y hs.0, on_values-All P f d h hs.1)

length-put_nowait {ℓ} :
    {A : Type ℓ} (x : A) (queue : List A)
    → length queue ≤ queue_maxsize
    → length (put_nowait x queue) ≤ queue_maxsize
unfolding put_nowait
length-put_nowait x queue h = elim (Bool-cases (leb queue_maxsize (length queue))) [
  | inl e ↦ rw e h
  | inr e ↦ rw e (ground (arith, length-append queue (x ∷ [])))
]

call-IsBounded : (c : Call) (r : EventRouter) → IsBounded r → IsBounded (call c r)
unfolding call add_subscriber remove_subscriber add_response_subscriber remove_response_subscriber
    broadcast_to_subscribers broadcast_response deliver_event deliver_response
call-IsBounded (adds id filters types) r (hs, hr) = (
  put-All (λ (s : Subscriber). length s.queue ≤ queue_maxsize) id _ r.subscribers (omega arith) hs,
  hr,
)
call-IsBounded (removes id) r (hs, hr) =
    (remove-All (λ (s : Subscriber). length s.queue ≤ queue_maxsize) id r.subscribers hs, hr)
call-IsBounded (adds_response id filters immediate) r (hs, hr) = (
  hs,
  put-All (λ (s : ResponseSubscriber). length s.queue ≤ queue_maxsize) id _ r.response_subscribers
      (omega arith) hr,
)
call-IsBounded (removes_response id) r (hs, hr) = (
  hs,
  remove-All (λ (s : ResponseSubscriber). length s.queue ≤ queue_maxsize) id r.response_subscribers
      hr,
)
call-IsBounded (sends event) r (hs, hr) = (
  on_values-All (λ (s : Subscriber). length s.queue ≤ queue_maxsize) (deliver_event event)
      r.subscribers
      (λ s h.
        if_both (λ (s : Subscriber). length s.queue ≤ queue_maxsize)
          (passes s.source_filters event.source) (length-put_nowait event s.queue h) h)
      hs,
  hr,
)
call-IsBounded (sends_response b) r (hs, hr) = (
  hs,
  on_values-All (λ (s : ResponseSubscriber). length s.queue ≤ queue_maxsize) (deliver_response b)
      r.response_subscribers
      (λ s h.
        if_both (λ (s : ResponseSubscriber). length s.queue ≤ queue_maxsize) (wants b s)
          (length-put_nowait b s.queue h) h)
      hr,
)

-- In every run of the router's methods, no subscriber's queue grows longer than 1000.
pub call_all-IsBounded :
    (cs : List Call) (r : EventRouter) → IsBounded r → IsBounded (call_all cs r)
unfolding call_all
call_all-IsBounded [] r h = h
call_all-IsBounded (c ∷ cs) r h = call_all-IsBounded cs (call c r) (call-IsBounded c r h)
