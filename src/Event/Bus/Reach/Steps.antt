-- ===== src/Event/Bus/Reach/Steps.antt =====
-- The in-memory bus of event_layer/bus.py and its consumers as a transition system.
use kuber.Base.{suc, String, ◌≡◌, Option, List, ◌∷◌, ◌++◌, string_eq, pair_eq}
use kuber.Event.Bus.{PublishedEvent, ConsumedEvent, ack_key_eq, Bus, publish, consume}
use kuber.Event.Bus.Settle.{acknowledge, retry, dead_letter, Supply}
use kuber.Base.Result.{ok}
use kuber.Event.Contracts.{EventEnvelope}
use kuber.Event.Bus.Delivery.Steps.{held}

-- The bus, and the messages that consumers have claimed and not settled.
abbrev pub State : Type 0
State = Bus × List ConsumedEvent

-- One call, by any consumer at any time.
pub data Step (supply : Supply) : State → State → Type 0 where
  publishes :
      (topic : String) (event : EventEnvelope) (key : String) (bus : Bus)
      (claimed : List ConsumedEvent)
      → Step supply (bus, claimed) ((publish topic event key bus).1, claimed)
  -- An identity is made for an event.
  issues :
      (bus : Bus) (claimed : List ConsumedEvent)
      → Step supply (bus, claimed) (record bus { issued = suc bus.issued }, claimed)
  consumes :
      (topic group id : String) (message : Option ConsumedEvent) (bus : Bus)
      (claimed : List ConsumedEvent)
      → (consume topic group id bus).0 ≡ ok message
      → Step supply (bus, claimed) ((consume topic group id bus).1, held message claimed)
  acknowledges :
      (message : ConsumedEvent) (bus : Bus) (before after : List ConsumedEvent)
      → Step supply (bus, before ++ message ∷ after) ((acknowledge message bus).1, before ++ after)
  retries :
      (message : ConsumedEvent) (reason : String) (bus : Bus) (before after : List ConsumedEvent)
      → (retry supply message reason bus).0 ≡ ok tt
      → Step supply
          (bus, before ++ message ∷ after)
          ((retry supply message reason bus).1, before ++ after)
  dead_letters :
      (message : ConsumedEvent) (reason : String) (published : PublishedEvent) (bus : Bus)
      (before after : List ConsumedEvent)
      → (dead_letter supply message reason bus).0 ≡ ok published
      → Step supply
          (bus, before ++ message ∷ after)
          ((dead_letter supply message reason bus).1, before ++ after)

pub data Reaches (supply : Supply) : State → State → Type 0 where
  here : (s : State) → Reaches supply s s
  then_step : (s t u : State) → Reaches supply s t → Step supply t u → Reaches supply s u
