-- ===== src/Pubsub/Received.antt =====
-- internal/pubsub/broker.go: the steps of a broker and its subscribers, with what is forwarded and
-- received.
use otf.Prelude.{
  ℕ, ◌==◌, ◌<◌, ◌≤◌, true, not, ◌≡◌, Option, none, some, List, [], ◌∷◌, ◌++◌, String, length,
  if◌then◌else◌,
}
use otf.Pubsub.{
  Event, SqlEvent, Broker, unsubscribe, enable, disable, subscribe, event_of, forward, receive,
}

pub data Step : Type 0 where
  subscribes enables disables : Step
  unsubscribes receives : ℕ → Step
  forwards : SqlEvent → Step

module _ {ℓ} {T : Type ℓ} where
  abbrev pub step : ℕ → (String → Option T) → Step → Broker T → Broker T
  step size unmarshal subscribes b = (subscribe b).0
  step size unmarshal enables b = enable b
  step size unmarshal disables b = disable b
  step size unmarshal (unsubscribes id) b = unsubscribe id b
  step size unmarshal (receives id) b = (receive id b).0
  step size unmarshal (forwards e) b = forward size unmarshal e b

  abbrev pub run_all : ℕ → (String → Option T) → List Step → Broker T → Broker T
  run_all size unmarshal [] b = b
  run_all size unmarshal (s ∷ rest) b = run_all size unmarshal rest (step size unmarshal s b)

  abbrev pub listed : Option (Event T) → List (Event T)
  listed none = []
  listed (some e) = e ∷ []

  -- The events that are received from a channel, in their order.
  abbrev pub taken : ℕ → Step → Broker T → List (Event T)
  taken id (receives k) b = if k == id then listed (receive k b).1 else []
  taken id _ b = []

  abbrev pub received : ℕ → (String → Option T) → ℕ → List Step → Broker T → List (Event T)
  received size unmarshal id [] b = []
  received size unmarshal id (s ∷ rest) b =
      taken id s b ++ received size unmarshal id rest (step size unmarshal s b)

  -- The events that are forwarded, in their order.
  abbrev pub sent : (String → Option T) → Step → List (Event T)
  sent unmarshal (forwards e) = listed (event_of unmarshal e)
  sent unmarshal _ = []

  abbrev pub forwarded : (String → Option T) → List Step → List (Event T)
  forwarded unmarshal [] = []
  forwarded unmarshal (s ∷ rest) = sent unmarshal s ++ forwarded unmarshal rest

  -- A channel is closed where it is no subscription, and its buffer is within its size.
  abbrev pub IsKept : ℕ → ℕ → Broker T → Type 0
  IsKept size id b =
      ((b.channels id).closed ≡ not (b.subs id))
      × (id < b.next)
      × (length (b.channels id).buffer ≤ size)

  -- What was received, with the buffer and what was missed, is what was sent.
  abbrev pub Follows : ℕ → ℕ → Broker T → List (Event T) → List (Event T) → Type ℓ
  Follows size id b got all =
      IsKept size id b
      × ((missed : List (Event T)) × (got ++ (b.channels id).buffer ++ missed ≡ all)
          × (b.subs id ≡ true → missed ≡ []))
