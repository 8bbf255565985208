-- ===== src/Tests/Brokers.antt =====
-- Publications of a row, and the routes of its event type.
use skill_up.Base.{◌≡◌, refl, true, false, Option, none, some, [], ◌∷◌, ◌⊎◌, if◌then◌else◌}
use skill_up.Text.{Text, codes, text_eq}
use skill_up.Values.{Value, undefined, text, boolean, Object, empty, property, has, get}
use skill_up.Shared.{OutboxMessage, OutboxStatus, verification_email}
use skill_up.Outbox.{resolve_routing_key, send_verification_email, process_profile_photo}
use skill_up.Broker.{
  Publication, PublisherInput, resolved, rejected, publish_event, publish_options,
}
use skill_up.Broker.Publications.{
  row_options, Published, publish_event-Published, publish_options-persistent,
}
use skill_up.Broker.Routing.{delivers, notifications, media, delivers-resolve_routing_key}
use skill_up.Broker.Topics.{matches, matches-IsTopic}

abbrev input : PublisherInput
input = record { default_exchange = undefined; uuid = codes "uuid"; now = 7; publish = false }

abbrev row : OutboxMessage
row = record {
  id = codes "m1";
  event_type = send_verification_email;
  payload = verification_email (codes "b@x.io") (codes "123456") (codes "bob");
  status = OutboxStatus.pending;
  retry_count = 0;
  created_at = 1;
  processed_at = none;
}

abbrev serialised : Value → Option Text
serialised v = some (codes "{}")

publish_event-Published_example :
    ((input.publish ≡ true)
      × (publish_event serialised input
            (resolve_routing_key row.event_type)
            undefined
            (some (row_options row))
            []
          ≡ (rejected, [])))
    ⊎ ((input.publish ≡ false)
        × (p : Publication) × (publish_event serialised input
              (resolve_routing_key row.event_type)
              undefined
              (some (row_options row))
              []
            ≡ (resolved, p ∷ []))
        × Published input row (codes "{}") p)
publish_event-Published_example =
    publish_event-Published serialised input row undefined (codes "{}") [] refl

-- Headers without a publish option among them.
abbrev headers : Object
headers = property (codes "eventType") (text (codes "x")) empty

publish_options-persistent_example :
    get (codes "persistent") (publish_options input (some headers))
    ≡ (if has (codes "persistent") headers then get (codes "persistent") headers else boolean true)
unfolding has
publish_options-persistent_example = publish_options-persistent input headers (refl, tt)

delivers-resolve_routing_key_example :
    (delivers matches notifications (resolve_routing_key (codes "USER_DELETED"))
      ≡ text_eq (codes "USER_DELETED") send_verification_email)
    × (delivers matches media (resolve_routing_key (codes "USER_DELETED"))
        ≡ text_eq (codes "USER_DELETED") process_profile_photo)
delivers-resolve_routing_key_example =
    delivers-resolve_routing_key matches matches-IsTopic (codes "USER_DELETED")
