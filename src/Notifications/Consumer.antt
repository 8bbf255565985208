-- ===== src/Notifications/Consumer.antt =====
-- apps/notifications-service/src/consumers/notification-consumer.service.ts: the callback of
-- `channel.consume`. `JSON.parse` is a parameter; the set-up of the queue stands in Broker.Routing.
use skill_up.Base.{
  ◌≡◌, refl, Bool, true, false, Option, none, some, List, [], ◌∷◌, ◌++◌, ◌⊎◌, inl, inr, arith,
  Bool-cases, Option-cases,
}
use skill_up.Text.{Text, codes}
use skill_up.Values.{Value, read}
use skill_up.Media.Consumer.{Verdict, ack, nack}
use skill_up.Notifications.{
  Templating, Mail, MailInput, SendMailOptions, Mailer, cached, get_template, verification_options,
  with_year, load, submit, send_email, send_verification_email,
}
use skill_up.Notifications.Cache.{Current, cached-Current}

-- The fields of a payload: the first read throws where it is null or undefined.
unfoldable pub fields : Value → Option (Value × Value × Value)
fields v = elim (read v (codes "email")) [
  | none ↦ none
  | some email ↦ elim (read v (codes "username")) [
    | none ↦ none
    | some username ↦ elim (read v (codes "code")) [
      | none ↦ none
      | some code ↦ some (email, username, code)
    ]
  ]
]

module _ (H : Templating) (parse : Text → Option Value) where
  abbrev pub answer : Bool × Mailer H → Verdict × Mailer H
  answer (true, m) = (ack, m)
  answer (false, m) = (nack, m)

  -- The body of the `try`, on the fields of the payload; `none` is an exception.
  unfoldable pub process :
      MailInput → Option (Value × Value × Value) → Mailer H → Verdict × Mailer H
  process i none m = (nack, m)
  process i (some (email, username, code)) m =
      answer (send_verification_email H i email username code m)

  abbrev pub payload_of : Option Value → Option (Value × Value × Value)
  payload_of none = none
  payload_of (some v) = fields v

  -- The content of a message; the null message, which says that the consumer was cancelled, is
  -- passed over.
  unfoldable pub consume : MailInput → Option Text → Mailer H → Option Verdict × Mailer H
  consume i none m = (none, m)
  consume i (some content) m =
      let (verdict, m') = process i (payload_of (parse content)) m in (some verdict, m')

  -- The mail that `sendEmail` has had accepted.
  pub record Accepted (i : MailInput) (o : SendMailOptions) (before after : List Mail)
      : Type 0 where
    pub template : H.Template
    pub html : Text
    pub loaded : load H o.template ≡ some template
    pub rendered : H.render template (with_year H i o.context) ≡ some html
    pub mails :
        after
        ≡ before
          ++ record { from = i.default_from; to = o.to; subject = o.subject; html = html } ∷ []

  submit-outcome :
      (i : MailInput) (o : SendMailOptions) (t : H.Template) (m : Mailer H)
      → load H o.template ≡ some t
      → (html : Option Text) → H.render t (with_year H i o.context) ≡ html
      → (((submit H i o html m).0 ≡ false) × (((submit H i o html m).1).mails ≡ m.mails))
        ⊎ (((submit H i o html m).0 ≡ true) × Accepted i o m.mails ((submit H i o html m).1).mails)
  unfolding submit
  submit-outcome i o t m loaded none e = inl (refl, refl)
  submit-outcome i o t m loaded (some html) e = elim (Bool-cases i.send_mail) [
    | inl down ↦ inl (rw down refl, rw down refl)
    | inr up ↦ inr (
      rw up refl,
      record { template = t; html = html; loaded = loaded; rendered = e; mails = rw up refl },
    )
  ]

  send_email-outcome :
      (i : MailInput) (o : SendMailOptions) (m : Mailer H)
      → Current H m.cache
      → (((send_email H i o m).0 ≡ false) × (((send_email H i o m).1).mails ≡ m.mails))
        ⊎ (((send_email H i o m).0 ≡ true) × Accepted i o m.mails ((send_email H i o m).1).mails)
  unfolding send_email get_template
  send_email-outcome i o m c = go (cached H o.template m.cache) (load H o.template) refl refl
    where
      go :
          (q l : Option H.Template)
          → cached H o.template m.cache ≡ q
          → load H o.template ≡ l
          → (((send_email H i o m).0 ≡ false) × (((send_email H i o m).1).mails ≡ m.mails))
            ⊎ (((send_email H i o m).0 ≡ true)
                × Accepted i o m.mails ((send_email H i o m).1).mails)
      go (some t) l hit now =
          rw (hit, send_email, get_template)
            (submit-outcome i o t m (cached-Current H o.template m.cache t c hit)
              (H.render t (with_year H i o.context)) refl)
      go none none miss now = inl (
        rw (miss, now, send_email, get_template) refl,
        rw (miss, now, send_email, get_template) refl,
      )
      go none (some t) miss now =
          rw (miss, now, send_email, get_template)
            (submit-outcome i o t (record m { cache = m.cache ++ (o.template, t) ∷ [] }) now
              (H.render t (with_year H i o.context)) refl)

  -- The mail of a message: its payload is read, and rendered into the template.
  pub record Delivered (i : MailInput) (content : Text) (before after : List Mail) : Type 0 where
    pub payload : Value
    pub email : Value
    pub username : Value
    pub code : Value
    pub parsed : parse content ≡ some payload
    pub read_email : read payload (codes "email") ≡ some email
    pub read_username : read payload (codes "username") ≡ some username
    pub read_code : read payload (codes "code") ≡ some code
    pub accepted : Accepted i (verification_options H email username code) before after

  fields-read :
      (v email username code : Value)
      → fields v ≡ some (email, username, code)
      → (read v (codes "email") ≡ some email)
        × (read v (codes "username") ≡ some username)
        × (read v (codes "code") ≡ some code)
  unfolding fields
  fields-read v email username code h = ground arith

  process-outcome :
      (i : MailInput) (content : Text) (m : Mailer H)
      → Current H m.cache
      → (v email username code : Value) → parse content ≡ some v
      → fields v ≡ some (email, username, code)
      → (((process i (some (email, username, code)) m).0 ≡ nack)
          × (((process i (some (email, username, code)) m).1).mails ≡ m.mails))
        ⊎ (((process i (some (email, username, code)) m).0 ≡ ack)
            × Delivered i content m.mails ((process i (some (email, username, code)) m).1).mails)
  unfolding process send_verification_email
  process-outcome i content m c v email username code parsed all_read =
      go (send_email H i o m) (send_email-outcome i o m c)
    where
      o : SendMailOptions
      o = verification_options H email username code

      go :
          (x : Bool × Mailer H)
          → ((x.0 ≡ false) × ((x.1).mails ≡ m.mails))
            ⊎ ((x.0 ≡ true) × Accepted i o m.mails (x.1).mails)
          → (((answer x).0 ≡ nack) × (((answer x).1).mails ≡ m.mails))
            ⊎ (((answer x).0 ≡ ack) × Delivered i content m.mails ((answer x).1).mails)
      go (true, m') (inl (h, k)) = cc
      go (false, m') (inl (h, k)) = inl (refl, k)
      go (false, m') (inr (h, k)) = cc
      go (true, m') (inr (h, k)) =
          let (a, b, d) = fields-read v email username code all_read in
          inr (
            refl,
            record {
              payload = v;
              email = email;
              username = username;
              code = code;
              parsed = parsed;
              read_email = a;
              read_username = b;
              read_code = d;
              accepted = k;
            },
          )

  some_verdict :
      (i : MailInput) (content : Text) (m : Mailer H) (y : Verdict × Mailer H)
      → consume i (some content) m ≡ (some y.0, y.1)
      → ((y.0 ≡ nack) × ((y.1).mails ≡ m.mails))
        ⊎ ((y.0 ≡ ack) × Delivered i content m.mails (y.1).mails)
      → (((consume i (some content) m).0 ≡ some nack)
          × (((consume i (some content) m).1).mails ≡ m.mails))
        ⊎ (((consume i (some content) m).0 ≡ some ack)
            × Delivered i content m.mails ((consume i (some content) m).1).mails)
  some_verdict i content m y e (inl (a, b)) = rw e (inl (rw a refl, b))
  some_verdict i content m y e (inr (a, b)) = rw e (inr (rw a refl, b))

  -- A message is acknowledged exactly where a mail has been accepted for it: one mail, to the address
  -- of its payload, with the template of the files rendered on its address, name and code. Where the
  -- message is not JSON or its payload is null, the template is missing or throws, or the server
  -- rejects, it is rejected without being requeued, and no mail is added.
  pub consume-Delivered :
      (i : MailInput) (content : Text) (m : Mailer H)
      → Current H m.cache
      → (((consume i (some content) m).0 ≡ some nack)
          × (((consume i (some content) m).1).mails ≡ m.mails))
        ⊎ (((consume i (some content) m).0 ≡ some ack)
            × Delivered i content m.mails ((consume i (some content) m).1).mails)
  unfolding consume process
  consume-Delivered i content m c = go (parse content) refl
    where
      go :
          (p : Option Value)
          → parse content ≡ p
          → (((consume i (some content) m).0 ≡ some nack)
              × (((consume i (some content) m).1).mails ≡ m.mails))
            ⊎ (((consume i (some content) m).0 ≡ some ack)
                × Delivered i content m.mails ((consume i (some content) m).1).mails)
      go none e = rw (e, consume, process) (inl (refl, refl))
      go (some v) e = elim (Option-cases (fields v)) [
        | inl none_read ↦ rw (e, none_read, consume, process) (inl (refl, refl))
        | inr ((email, username, code), all_read) ↦
            some_verdict i content m (process i (some (email, username, code)) m)
              (rw (e, all_read, consume) refl)
              (process-outcome i content m c v email username code e all_read)
      ]
