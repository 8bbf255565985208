-- ===== src/Notifications/Journey.antt =====
-- From a registration to the activation of the account: the event of the outbox, its route, the mail
-- of the consumer, and the verification with the code that the mail was rendered with.
use skill_up.Base.{
  ℕ, ◌<◌, ◌≡◌, ◌≢◌, refl, ap, sym, ◌∙◌, Bool, true, false, Option, none, some, List, [], ◌∷◌, ◌++◌,
}
use skill_up.Text.{Text, codes, text_eq, trim, or_else}
use skill_up.Values.{number, spread, put, Value, text, object, get, read, property, empty}
use skill_up.Shared.{UserStatus, OutboxMessage, Payload, verification_email, profile_photo}
use skill_up.Broker.{Publication, PublisherInput, resolved, publish_event, send}
use skill_up.Broker.Publications.{row_options, publication}
use skill_up.Users.Register.{temp_key_of, photo_of}
use skill_up.Users.Register.Steps.{with_photo}
use skill_up.Users.Register.Outcome.{create_user-Created}
use skill_up.Users.Register.Recorded.{pending_user}
use skill_up.Services.{Services, IsRedis, IsDatabase, same_id}
use skill_up.Effects.{World, ok}
use skill_up.Outbox.{event_of, send_verification_email}
use skill_up.Broker.Routing.{IsTopic, delivers, delivers-resolve_routing_key, notifications}
use skill_up.Media.Consumer.{ack}
use skill_up.Users.Keys.{verify_rate_key}
use skill_up.Users.Register.Activation.{verified_later}
use skill_up.Users.Counter.{read_count}
use skill_up.Users.Tokens.{Fresh, auth_data}
use skill_up.Users.Verify.{VerifyRequest, normalize_email, activate, verify_account}
use skill_up.Users.Verify.Success.{no_faults, verified}
use skill_up.Users.Register.{
  CreateUserRequest, RegisterFaults, Draw, new_user, email_message, create_user,
}
use skill_up.Notifications.{
  Templating, send_verification_email as send_mail_of, Mail, MailInput, Mailer, SendMailOptions,
  cached, load, get_template, submit, send_email, with_year, verification_context,
  verification_options,
}
use skill_up.Notifications.Cache.{Current, cached-Current}
use skill_up.Notifications.Consumer.{fields, process, answer, consume}

module _ (H : Templating) where
  -- With the template in the files, a rendering and a server that accepts, the mail is sent.
  send_email_complete :
      (i : MailInput) (o : SendMailOptions) (m : Mailer H) (t : H.Template) (html : Text)
      → Current H m.cache
      → load H o.template ≡ some t
      → H.render t (with_year H i o.context) ≡ some html
      → i.send_mail ≡ false
      → ((send_email H i o m).0 ≡ true)
        × (((send_email H i o m).1).mails
            ≡ m.mails
              ++ record { from = i.default_from; to = o.to; subject = o.subject; html = html } ∷ [])
  unfolding send_email get_template submit
  send_email_complete i o m t html c loaded rendered up = go (cached H o.template m.cache) refl
    where
      go :
          (q : Option H.Template)
          → cached H o.template m.cache ≡ q
          → ((send_email H i o m).0 ≡ true)
            × (((send_email H i o m).1).mails
                ≡ m.mails
                  ++ record { from = i.default_from; to = o.to; subject = o.subject; html = html }
                    ∷ [])
      go none miss = (
        rw (miss, loaded, rendered, up, send_email, get_template, submit) refl,
        rw (miss, loaded, rendered, up, send_email, get_template, submit) refl,
      )
      go (some u) hit =
          let h : some u ≡ some t = sym (cached-Current H o.template m.cache u c hit) ∙ loaded in
          let e : u ≡ t = cc in
          (
            rw (hit, e, rendered, up, send_email, get_template, submit) refl,
            rw (hit, e, rendered, up, send_email, get_template, submit) refl,
          )

-- The JavaScript value of a payload as register.provider.ts writes it; the transformations of a photo
-- are left out.
abbrev pub payload_value : Payload → Value
payload_value (verification_email email code username) = object (
    property (codes "email") (text email)
      (property (codes "code") (text code) (property (codes "username") (text username) empty)))
payload_value (profile_photo user_id temp_key target_key) = object (
    property (codes "userId") (text user_id) (
      property (codes "tempKey") (text temp_key)
        (property (codes "targetKey") (text target_key) empty)))

module _ (H : Templating) (parse : Text → Option Value) where
  mailed_message :
      (i : MailInput) (m : Mailer H) (content html : Text) (t : H.Template)
      (email username code : Text)
      → parse content
        ≡ some (
            object (
              property (codes "email") (text email) (
                property
                  (codes "code")
                  (text code)
                  (property (codes "username") (text username) empty))))
      → Current H m.cache
      → load H (codes "verification-email") ≡ some t
      → H.render t (with_year H i (verification_context H (text email) (text username) (text code)))
        ≡ some html
      → i.send_mail ≡ false
      → ((consume H parse i (some content) m).0 ≡ some ack)
        × (((consume H parse i (some content) m).1).mails
            ≡ m.mails
              ++ record {
                from = i.default_from;
                to = text email;
                subject = codes "Verify your SkillHUB account";
                html = html;
              }
                ∷ [])
  unfolding consume process fields read get text_eq send_mail_of
  mailed_message i m content html t email username code parsed current loaded rendered up =
      let o = verification_options H (text email) (text username) (text code) in
      let (sent, mails) = send_email_complete H i o m t html current loaded rendered up in
      rw (parsed, consume, process) (answered (send_email H i o m) sent mails)
    where
      answered :
          {ms : List Mail} (x : Bool × Mailer H)
          → x.0 ≡ true
          → (x.1).mails ≡ ms
          → ((some (answer H parse x).0) ≡ some ack) × (((answer H parse x).1).mails ≡ ms)
      answered (true, m') h k = (refl, k)
      answered (false, m') h k = cc

module _ (S : Services) (H : Templating) (stringify : Value → Option Text)
    (parse : Text → Option Value) (matches : Text → Text → Bool) (r : CreateUserRequest)
    (draw : Draw) (pi : PublisherInput) (i : MailInput) (m : Mailer H) (html : Text)
    (request : VerifyRequest) (fresh : Fresh) (old w : World S) where
  -- The message of the outbox.
  abbrev pub row : OutboxMessage
  row = email_message (new_user S r draw) draw

  -- The message is stored and published, the mail is sent, and the account is activated.
  pub record Arrives (sent : List Publication) : Type 0 where
    pub stored :
        w.rows
        ≡ with_photo S
            (temp_key_of r)
            (new_user S r draw)
            (photo_of r draw)
            draw
            (S.save_outbox row (S.save_user (new_user S r draw) old.rows))
    pub publication : Publication
    pub published :
        publish_event stringify pi
          (event_of row).routing_key
          (payload_value (event_of row).payload)
          (some (row_options row))
          sent
        ≡ (resolved, sent ++ publication ∷ [])
    pub routed : delivers matches notifications publication.routing_key ≡ true
    pub acknowledged : (consume H parse i (some publication.content) m).0 ≡ some ack
    pub mailed :
        ((consume H parse i (some publication.content) m).1).mails
        ≡ m.mails
          ++ record {
            from = i.default_from;
            to = text (normalize_email r.email);
            subject = codes "Verify your SkillHUB account";
            html = html;
          }
            ∷ []
    pub verified_account :
        verify_account S no_faults request fresh w
        ≡ ok
            (auth_data S (activate fresh.now (new_user S r draw)) fresh)
            (verified S request fresh (new_user S r draw) w)
    pub activated :
        S.find_user
          (same_id (or_else r.id draw.uuid))
          (verified S request fresh (new_user S r draw) w).rows
        ≡ some
            (record (pending_user S r draw) { status = UserStatus.active; updated_at = fresh.now })

  -- A registration that is answered leads to an ACTIVE account: it stores a message in the outbox;
  -- publishing that message resolves and gives the channel one publication, which is taken to the
  -- notifications queue; the consumer mails its content to the address of the registration and
  -- acknowledges; and the verification with the code that the mail was rendered with is answered, and
  -- leaves the new user ACTIVE. The payload is serialised and parsed back, the channel accepts, the
  -- template is in the files and renders with the address, the trimmed name, the
  -- code and the year, the SMTP server accepts,
  -- the address has fewer than seven failed attempts, and the calls of the verification answer.
  pub create_user-Arrives :
      (redis : IsRedis S) (db : IsDatabase S) (topic : IsTopic matches) (f : RegisterFaults)
      (uid content : Text) (sent : List Publication) (t : H.Template) (n : ℕ)
      → create_user S f r draw old ≡ ok uid w
      → pi.publish ≡ false
      → stringify (payload_value row.payload) ≡ some content
      → parse content ≡ some (payload_value row.payload)
      → Current H m.cache
      → load H (codes "verification-email") ≡ some t
      → H.render t (
          property (codes "email") (text (normalize_email r.email)) (
            property (codes "username") (text (trim r.username)) (
              property
                (codes "code")
                (text draw.code)
                (property (codes "year") (number i.year) empty))))
        ≡ some html
      → i.send_mail ≡ false
      → request.email ≡ r.email
      → trim request.code ≡ draw.code
      → S.sha256 draw.code ≢ []
      → read_count (S.get (verify_rate_key (normalize_email r.email)) old.store) ≡ some n
      → n < 7
      → Arrives sent
  unfolding new_user publish_event send text_eq spread put
  create_user-Arrives redis db topic f uid content sent t n created up body parsed current loaded
        rendered accepts same typed hash few lt =
      let (acked, mailed) =
        mailed_message H parse i m content html t (normalize_email r.email) (trim r.username)
          draw.code parsed current loaded rendered accepts in
      let (done, active) =
        verified_later S redis db f r draw request fresh uid old w n created same typed hash few
          lt in
      record {
        stored =
            ap (λ (x : World S). x.rows) (create_user-Created S f r draw uid old w created).state;
        publication = publication stringify pi row content;
        published = rw (body, up) refl;
        routed = (delivers-resolve_routing_key matches topic send_verification_email).0;
        acknowledged = acked;
        mailed = mailed;
        verified_account = done;
        activated = active;
      }
