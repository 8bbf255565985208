-- ===== src/Broker/Routing.antt =====
-- The bindings that notification-consumer.service.ts and media-consumer.service.ts declare on the
-- topic exchange, and where the exchange takes the events of the outbox. How a pattern matches a
-- routing key is a parameter.
use skill_up.Base.{
  ℕ, Bool-cases, inl, inr, ◌≡◌, refl, Bool, true, false, ◌||◌, not, List, [], ◌∷◌, ◌++◌, all, ◌==◌,
}
use skill_up.Text.{Text, codes, text_eq, text_eq→eq, starts_with}
use skill_up.Outbox.{resolve_routing_key, send_verification_email, process_profile_photo}

pub data Queue : Type 0 where
  notifications media : Queue

-- The patterns of a queue, in the order of `bindQueue`.
unfoldable pub bindings : Queue → List Text
bindings notifications =
    codes "notification.email.verify" ∷ codes "notification.#" ∷ send_verification_email ∷ []
bindings media = codes "media.photo.process" ∷ codes "media.#" ∷ []

-- No word of the pattern is a wild card.
abbrev pub plain : Text → Bool
plain = all (λ c. not (c == b'*' || c == b'#'))

-- The documented behaviour of a topic exchange: `pattern` and `key` are words between dots, `#`
-- stands for any number of words, and a pattern without wild cards for itself.
pub record IsTopic (matches : Text → Text → Bool) : Type 0 where
  pub literal :
      (pattern key : Text) → plain pattern ≡ true → matches pattern key ≡ text_eq pattern key
  pub tail :
      (c : ℕ) (word key : Text)
      → plain (c ∷ word) ≡ true
      → matches (c ∷ word ++ codes ".#") key
        ≡ (text_eq (c ∷ word) key || starts_with (c ∷ word ++ codes ".") key)

module _ (matches : Text → Text → Bool) where
  abbrev pub any_match : List Text → Text → Bool
  any_match [] key = false
  any_match (p ∷ ps) key = matches p key || any_match ps key

  -- Whether the exchange puts a message with this routing key into the queue.
  unfoldable pub delivers : Queue → Text → Bool
  delivers q key = any_match (bindings q) key

  module _ (topic : IsTopic matches) where
    delivers_notifications :
        (key : Text)
        → delivers notifications key ≡ (
            text_eq (codes "notification.email.verify") key
            || ((text_eq (codes "notification") key || starts_with (codes "notification.") key)
                || (text_eq send_verification_email key || false)))
    unfolding delivers bindings
    delivers_notifications key =
        rw
          (
            topic.literal (codes "notification.email.verify") key refl,
            topic.tail b'n' (codes "otification") key refl,
            topic.literal send_verification_email key refl,
            delivers,
          )
          refl

    delivers_media :
        (key : Text)
        → delivers media key ≡ (
            text_eq (codes "media.photo.process") key
            || ((text_eq (codes "media") key || starts_with (codes "media.") key) || false))
    unfolding delivers bindings
    delivers_media key =
        rw
          (
            topic.literal (codes "media.photo.process") key refl,
            topic.tail b'm' (codes "edia") key refl,
            delivers,
          )
          refl

    -- The exchange takes an event of the outbox to the notifications queue exactly where its type is
    -- SEND_VERIFICATION_EMAIL, and to the media queue exactly where it is PROCESS_PROFILE_PHOTO: an
    -- event of another type reaches no queue.
    pub delivers-resolve_routing_key :
        (event_type : Text)
        → (delivers notifications (resolve_routing_key event_type)
            ≡ text_eq event_type send_verification_email)
          × (delivers media (resolve_routing_key event_type)
              ≡ text_eq event_type process_profile_photo)
    unfolding resolve_routing_key text_eq starts_with
    delivers-resolve_routing_key event_type =
        elim (Bool-cases (text_eq event_type send_verification_email)) [
          | inl mail ↦
              let e = text_eq→eq event_type send_verification_email mail in
              rw (e, delivers_notifications, delivers_media) (refl, refl)
          | inr other ↦ elim (Bool-cases (text_eq event_type process_profile_photo)) [
            | inl photo ↦
                let e = text_eq→eq event_type process_profile_photo photo in
                rw (e, delivers_notifications, delivers_media) (refl, refl)
            | inr neither ↦
                rw (resolve_routing_key, other, neither, delivers_notifications, delivers_media)
                  (refl, refl)
          ]
        ]
