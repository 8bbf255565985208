-- ===== src/Broker.antt =====
-- libs/shared/rabbitmq/src/event-publisher.service.ts: `publishEvent`. The exchange, the serialiser,
-- the random message id and the clock are parameters; the state is what the channel has been given.
pub mod Routing
pub mod Publications
pub mod Topics
use skill_up.Base.{ℕ, Bool, true, false, ◌||◌, Option, none, some, List, [], ◌∷◌, ◌++◌}
use skill_up.Text.{Text, codes}
use skill_up.Values.{
  Value, undefined, text, number, boolean, object, Object, empty, property, has, get, spread,
  or_value,
}

-- rabbitmq.constants.ts
abbrev pub default_exchange_name : Text
default_exchange_name = codes "skillhub.events"

-- What `channelWrapper.publish` is called with.
pub record Publication : Type 0 where
  pub exchange : Value
  pub routing_key : Text
  pub content : Text
  pub options : Object

-- The options of the module, the result of `randomUUID`, the clock, and whether `publish` rejects.
pub record PublisherInput : Type 0 where
  pub default_exchange : Value
  pub uuid : Text
  pub now : ℕ
  pub publish : Bool

-- `options?.k`
abbrev pub option : Option Object → Text → Value
option none k = undefined
option (some o) k = get k o

-- Whether the options are read as publish options; else they are the headers.
unfoldable pub is_options_object : Option Object → Bool
is_options_object none = false
is_options_object (some o) =
    has (codes "exchange") o
    || has (codes "correlationId") o
    || has (codes "headers") o
    || has (codes "persistent") o

unfoldable pub exchange_of : PublisherInput → Option Object → Value
exchange_of i options =
    or_value (or_value (option options (codes "exchange")) i.default_exchange)
      (text default_exchange_name)

unfoldable pub message_id_of : PublisherInput → Option Object → Value
message_id_of i options = or_value (option options (codes "messageId")) (text i.uuid)

-- `options || {}`
abbrev pub or_empty : Option Object → Object
or_empty none = empty
or_empty (some o) = o

abbrev pub event_headers : Bool → Option Object → Value
event_headers true options = or_value (option options (codes "headers")) (object empty)
event_headers false options = object (or_empty options)

abbrev pub correlation_of : Bool → Option Object → Value
correlation_of true options = option options (codes "correlationId")
correlation_of false options = undefined

abbrev pub spread_of : Bool → Option Object → Object
spread_of true options = or_empty options
spread_of false options = empty

unfoldable pub defaults : PublisherInput → Option Object → Object
defaults i options = property (codes "persistent") (boolean true) (
    property (codes "contentType") (text (codes "application/json")) (
      property (codes "contentEncoding") (text (codes "utf-8")) (
        property (codes "messageId") (message_id_of i options) (
          property (codes "timestamp") (number i.now) (
            property (codes "headers") (event_headers (is_options_object options) options) (
              property (codes "correlationId") (correlation_of (is_options_object options) options)
                empty))))))

unfoldable pub publish_options : PublisherInput → Option Object → Object
publish_options i options =
    spread (defaults i options) (spread_of (is_options_object options) options)

-- What a promise comes to.
pub data Promised : Type 0 where
  resolved rejected : Promised

module _ (stringify : Value → Option Text) where
  -- The body of the `try`, once the payload is serialised; `none` is an exception, which is rethrown.
  unfoldable pub send :
      PublisherInput
      → Text
      → Option Text
      → Option Object
      → List Publication
      → Promised × List Publication
  send i routing_key none options sent = (rejected, sent)
  send i routing_key (some content) options sent = elim i.publish [
    | true ↦ (rejected, sent)
    | false ↦ (
      resolved,
      sent
          ++ record {
            exchange = exchange_of i options;
            routing_key = routing_key;
            content = content;
            options = publish_options i options;
          }
            ∷ [],
    )
  ]

  unfoldable pub publish_event :
      PublisherInput → Text → Value → Option Object → List Publication → Promised × List Publication
  publish_event i routing_key payload options sent =
      send i routing_key (stringify payload) options sent
