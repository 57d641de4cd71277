-- ===== src/Pubsub.antt =====
-- internal/pubsub: broker.go and events.go, the subscriptions to the events of a table, which the
-- listener of internal/sql forwards one at a time. A channel is its buffer, with whether it is
-- closed; each is made with a number that no other has. A map of subscriptions is the set of its
-- numbers, and ranging over it visits them in order. The buffer has room for at least one event.
-- The cancelation of a context is an unsubscription.
pub mod Subscriptions
pub mod Offers
pub mod Received
pub mod Delivery
use otf.Prelude.{
  ℕ, zero, suc, ltb, ◌==◌, Bool, true, false, Option, none, some, List, [], ◌∷◌, ◌++◌, String,
  String-discrete, Result, ok, err, if◌then◌else◌, test, length,
}
use otf.Time.{Time}

pub data EventType : Type 0 where
  created updated deleted : EventType

pub record Event {ℓ} (T : Type ℓ) : Type ℓ where
  pub type : EventType
  pub payload : T
  pub time : Time

-- An event of the database, with the text of the row.
pub record SqlEvent : Type 0 where
  pub action : String
  pub row : String
  pub time : Time

pub record Channel {ℓ} (T : Type ℓ) : Type ℓ where
  pub buffer : List (Event T)
  pub closed : Bool

-- The channels that were made, with those that are subscriptions.
pub record Broker {ℓ} (T : Type ℓ) : Type ℓ where
  pub channels : ℕ → Channel T
  pub subs : ℕ → Bool
  pub next : ℕ
  pub enabled : Bool

pub data BrokerError : Type 0 where
  broker_disabled : BrokerError

abbrev pub put {ℓ} : {A : Type ℓ} → ℕ → A → (ℕ → A) → ℕ → A
put id x f k = if k == id then x else f k

-- `NewBroker`.
abbrev pub new_broker {ℓ} : {T : Type ℓ} → Broker T
new_broker = record {
  channels = λ id. record { buffer = []; closed = false };
  subs = λ id. false;
  next = 0;
  enabled = true;
}

-- `unsubscribe` and `unsubscribeWithoutLock`.
unfoldable pub unsubscribe {ℓ} : {T : Type ℓ} → ℕ → Broker T → Broker T
unsubscribe id b =
    if b.subs id
    then record b {
      channels = put id (record (b.channels id) { closed = true }) b.channels;
      subs = put id false b.subs;
    }
    else b

-- `Enable`.
abbrev pub enable {ℓ} : {T : Type ℓ} → Broker T → Broker T
enable b = record b { enabled = true }

-- The loop of `Disable` over the subscriptions below a number.
unfoldable pub unsubscribe_below {ℓ} : {T : Type ℓ} → ℕ → Broker T → Broker T
unsubscribe_below zero b = b
unsubscribe_below (suc n) b = unsubscribe n (unsubscribe_below n b)

-- `Disable`.
unfoldable pub disable {ℓ} : {T : Type ℓ} → Broker T → Broker T
disable b = unsubscribe_below b.next (record b { enabled = false })

-- `Subscribe`, with the channel that it gives back.
unfoldable pub subscribe {ℓ} : {T : Type ℓ} → Broker T → Broker T × Result BrokerError ℕ
subscribe b =
    if b.enabled
    then (
      record b {
        channels = put b.next (record { buffer = []; closed = false }) b.channels;
        subs = put b.next true b.subs;
        next = suc b.next;
      },
      ok b.next,
    )
    else (b, err broker_disabled)

abbrev pub type_of : String → Option EventType
type_of action =
    if test (String-discrete action "INSERT")
    then some created
    else if test (String-discrete action "UPDATE")
    then some updated
    else if test (String-discrete action "DELETE")
    then some deleted
    else none

abbrev pub with_type {ℓ} : {T : Type ℓ} → T → Time → Option EventType → Option (Event T)
with_type payload time none = none
with_type payload time (some type) = some (record { type = type; payload = payload; time = time })

-- The event that `Forward` makes, where the row and the action can be read.
abbrev pub event_of {ℓ} : {T : Type ℓ} → (String → Option T) → SqlEvent → Option (Event T)
event_of unmarshal e = elim (unmarshal e.row) [
  | none ↦ none
  | some payload ↦ with_type payload e.time (type_of e.action)
]

-- The loop of `Forward` under the lock, with the subscriptions that are full.
unfoldable pub offer {ℓ} : {T : Type ℓ} → ℕ → Event T → ℕ → Broker T × List ℕ → Broker T × List ℕ
offer size e id (b, full) =
    let channel = b.channels id in
    if b.subs id
    then if ltb (length channel.buffer) size
      then (
        record b {
          channels = put id (record channel { buffer = channel.buffer ++ e ∷ [] }) b.channels;
        },
        full,
      )
      else (b, full ++ id ∷ [])
    else (b, full)

unfoldable pub publish {ℓ} : {T : Type ℓ} → ℕ → Event T → ℕ → Broker T → Broker T × List ℕ
publish size e zero b = (b, [])
publish size e (suc n) b = offer size e n (publish size e n b)

unfoldable pub unsubscribe_all {ℓ} : {T : Type ℓ} → List ℕ → Broker T → Broker T
unsubscribe_all [] b = b
unsubscribe_all (id ∷ ids) b = unsubscribe_all ids (unsubscribe id b)

abbrev pub forward_event {ℓ} : {T : Type ℓ} → ℕ → Broker T → Option (Event T) → Broker T
forward_event size b none = b
forward_event size b (some e) = let (c, full) = publish size e b.next b in unsubscribe_all full c

-- `Forward`.
unfoldable pub forward {ℓ} :
    {T : Type ℓ} → (size : ℕ) → (unmarshal : String → Option T) → SqlEvent → Broker T → Broker T
forward size unmarshal e b = forward_event size b (event_of unmarshal e)

abbrev pub receive_from {ℓ} :
    {T : Type ℓ} → ℕ → Broker T → List (Event T) → Broker T × Option (Event T)
receive_from id b [] = (b, none)
receive_from id b (e ∷ rest) =
    (record b { channels = put id (record (b.channels id) { buffer = rest }) b.channels }, some e)

-- The receipt of an event by a subscriber: nothing where the buffer is empty.
unfoldable pub receive {ℓ} : {T : Type ℓ} → ℕ → Broker T → Broker T × Option (Event T)
receive id b = receive_from id b (b.channels id).buffer
