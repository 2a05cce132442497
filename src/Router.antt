-- ===== src/Router.antt =====
-- router.py: the subscribers of the event router and what is broadcast to them. The salience of an
-- event and its routing are in child modules.
pub mod Salience
pub mod Route
pub mod Delivery
pub mod Routing
pub mod Candidates
mod Examples
use glady_s.Prelude.{
  ℕ, ◌≡◌, String, Bool, true, false, not, ◌&&◌, Option, none, some, List, [], ◌∷◌, ◌++◌, map, ◌==◌,
}
use glady_s.Prelude.Tests.{leb, if◌then◌else◌}
use glady_s.Prelude.Lists.{length, exists}
use glady_s.Prelude.Dict
use glady_s.Prelude.Dict.{Dict}
use glady_s.Event.{Event}
use glady_s.EventQueue.Process.{Broadcast}

-- The queue is an asyncio.Queue, the first to be read in front.
pub record Subscriber : Type 0 where
  pub subscriber_id : String
  pub queue : List Event
  pub source_filters : Option (List String)
  pub event_types : Option (List String)

pub record ResponseSubscriber : Type 0 where
  pub subscriber_id : String
  pub queue : List Broadcast
  pub source_filters : Option (List String)
  pub include_immediate : Bool

pub record EventRouter : Type 0 where
  pub subscribers : Dict Subscriber
  pub response_subscribers : Dict ResponseSubscriber

-- asyncio.Queue(maxsize=1000)
abbrev pub queue_maxsize : ℕ
queue_maxsize = 1000

-- put_nowait; a full queue raises, and what was to be put is dropped.
unfoldable pub put_nowait {ℓ} : {A : Type ℓ} → A → List A → List A
put_nowait x queue = if leb queue_maxsize (length queue) then queue else queue ++ x ∷ []

-- No filters, or an empty list of them, let everything through.
abbrev pub passes : Option (List String) → String → Bool
passes none source = true
passes (some []) source = true
passes (some (f ∷ fs)) source = exists (λ g. g == source) (f ∷ fs)

unfoldable pub deliver_event : Event → Subscriber → Subscriber
deliver_event event s =
    if passes s.source_filters event.source
    then record s { queue = put_nowait event s.queue }
    else s

abbrev pub on_values {ℓ} : {A : Type ℓ} → (A → A) → Dict A → Dict A
on_values f [] = []
on_values f ((key, x) ∷ d) = (key, f x) ∷ on_values f d

unfoldable pub broadcast_to_subscribers : Event → EventRouter → EventRouter
broadcast_to_subscribers event r = record r {
  subscribers = on_values (deliver_event event) r.subscribers;
}

unfoldable pub add_subscriber :
    String → Option (List String) → Option (List String) → EventRouter → EventRouter
add_subscriber id source_filters event_types r = record r {
  subscribers =
      Dict.put id
        (record {
          subscriber_id = id;
          queue = [];
          source_filters = source_filters;
          event_types = event_types;
        })
        r.subscribers;
}

unfoldable pub remove_subscriber : String → EventRouter → EventRouter
remove_subscriber id r = record r { subscribers = Dict.remove id r.subscribers }

unfoldable pub add_response_subscriber :
    String → Option (List String) → Bool → EventRouter → EventRouter
add_response_subscriber id source_filters include_immediate r = record r {
  response_subscribers =
      Dict.put id
        (record {
          subscriber_id = id;
          queue = [];
          source_filters = source_filters;
          include_immediate = include_immediate;
        })
        r.response_subscribers;
}

unfoldable pub remove_response_subscriber : String → EventRouter → EventRouter
remove_response_subscriber id r = record r {
  response_subscribers = Dict.remove id r.response_subscribers;
}

abbrev pub wants : Broadcast → ResponseSubscriber → Bool
wants b s =
    not (b.routing_path == "IMMEDIATE" && not s.include_immediate)
    && passes s.source_filters b.event_source

unfoldable pub deliver_response : Broadcast → ResponseSubscriber → ResponseSubscriber
deliver_response b s = if wants b s then record s { queue = put_nowait b s.queue } else s

unfoldable pub broadcast_response : Broadcast → EventRouter → EventRouter
broadcast_response b r = record r {
  response_subscribers = on_values (deliver_response b) r.response_subscribers;
}
