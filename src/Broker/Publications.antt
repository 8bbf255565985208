-- ===== src/Broker/Publications.antt =====
-- What `OutboxWorker` makes of a row when it calls `publishEvent`, and what the channel is given.
use skill_up.Base.{
  ◌≡◌, refl, ◌∙◌, Bool, true, false, ◌||◌, Option, some, List, [], ◌∷◌, ◌++◌, ◌⊎◌, inl, inr,
  if◌then◌else◌, Bool-cases, arith,
}
use skill_up.Text.{Text, codes, text_eq}
use skill_up.Values.{
  Value, text, boolean, object, Object, empty, property, has, get, put, spread, or_value,
}
use skill_up.Values.Spread.{Distinct, get-spread}
use skill_up.Shared.{OutboxMessage}
use skill_up.Outbox.{event_of, resolve_routing_key}
use skill_up.Broker.{
  Publication, PublisherInput, resolved, rejected, default_exchange_name, exchange_of,
  message_id_of, defaults, publish_options, spread_of, is_options_object, send, publish_event,
}

-- `{ messageId: msg.id, headers: { eventType: msg.eventType } }`
abbrev pub row_headers : OutboxMessage → Object
row_headers m = property (codes "eventType") (text m.event_type) empty

unfoldable pub row_options : OutboxMessage → Object
row_options m =
    property (codes "messageId") (text m.id)
      (property (codes "headers") (object (row_headers m)) empty)

-- The publication of a row: its exchange, its routing key, its body and its options.
pub record Published (i : PublisherInput) (m : OutboxMessage) (body : Text) (p : Publication)
    : Type 0 where
  pub exchange : p.exchange ≡ or_value i.default_exchange (text default_exchange_name)
  pub routing_key : p.routing_key ≡ (event_of m).routing_key
  pub content : p.content ≡ body
  pub message_id : get (codes "messageId") p.options ≡ text (event_of m).message_id
  pub headers : get (codes "headers") p.options ≡ object (row_headers m)
  pub persistent : get (codes "persistent") p.options ≡ boolean true

module _ (stringify : Value → Option Text) (i : PublisherInput) (m : OutboxMessage) where
  abbrev pub publication : Text → Publication
  publication content = record {
    exchange = exchange_of i (some (row_options m));
    routing_key = resolve_routing_key m.event_type;
    content = content;
    options = publish_options i (some (row_options m));
  }

  publication-Published : (content : Text) → Published i m content (publication content)
  unfolding row_options publish_options exchange_of message_id_of defaults is_options_object get put
      spread has text_eq
  publication-Published content = record {
    exchange = refl;
    routing_key = refl;
    content = refl;
    message_id = refl;
    headers = refl;
    persistent = refl;
  }

  -- A row whose payload is serialised is published once, to the configured exchange, under the
  -- routing key and the id of its event, persistent and with its event type as a header; where the
  -- channel rejects, `publishEvent` rejects and nothing is published.
  pub publish_event-Published :
      (payload : Value) (content : Text) (sent : List Publication)
      → stringify payload ≡ some content
      → ((i.publish ≡ true)
          × (publish_event stringify i
                (resolve_routing_key m.event_type)
                payload
                (some (row_options m))
                sent
              ≡ (rejected, sent)))
        ⊎ ((i.publish ≡ false)
            × (p : Publication) × (publish_event stringify i
                  (resolve_routing_key m.event_type)
                  payload
                  (some (row_options m))
                  sent
                ≡ (resolved, sent ++ p ∷ []))
            × Published i m content p)
  unfolding publish_event send
  publish_event-Published payload content sent body = elim (Bool-cases i.publish) [
    | inl down ↦ inl (down, rw (body, down) refl)
    | inr up ↦ inr (up, publication content, rw (body, up) refl, publication-Published content)
  ]

last_false : (a b c d : Bool) → (a || b || c || d) ≡ false → d ≡ false
last_false a b c d h = ground arith

spread_of-Distinct : (b : Bool) (o : Object) → Distinct o → Distinct (spread_of b (some o))
spread_of-Distinct true o d = d
spread_of-Distinct false o d = tt

ignored :
    (b : Bool) (o : Object) (k : Text) (v : Value)
    → (b ≡ false → has k o ≡ false)
    → (if has k (spread_of b (some o)) then get k (spread_of b (some o)) else v)
      ≡ (if has k o then get k o else v)
unfolding has
ignored true o k v h = refl
ignored false o k v h = rw (h refl) refl

-- Whatever the options: a publication is persistent unless they are publish options with a
-- `persistent` of their own.
pub publish_options-persistent :
    (i : PublisherInput) (o : Object)
    → Distinct o
    → get (codes "persistent") (publish_options i (some o))
      ≡ (if has (codes "persistent") o then get (codes "persistent") o else boolean true)
unfolding publish_options defaults get text_eq is_options_object
publish_options-persistent i o d =
    let k = codes "persistent" in
    let b = is_options_object (some o) in
    get-spread k (defaults i (some o)) (spread_of b (some o)) (spread_of-Distinct b o d)
    ∙ ignored b o k (boolean true) (
        last_false (has (codes "exchange") o) (has (codes "correlationId") o)
          (has (codes "headers") o) (has k o))
