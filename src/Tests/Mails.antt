-- ===== src/Tests/Mails.antt =====
-- Mails of the notifications service: one template, which shows the code.
use skill_up.Base.{◌≡◌, ◌≢◌, refl, arith, true, false, Option, some, [], ◌∷◌, ◌++◌, ◌⊎◌}
use skill_up.Text.{Text, codes, text_eq, trim}
use skill_up.Values.{Value, undefined, text, get, put, spread}
use skill_up.Services.Memory.{memory, memory_redis, memory-IsDatabase}
use skill_up.Media.Consumer.{ack, nack}
use skill_up.Users.Register.{new_user, email_message}
use skill_up.Broker.{PublisherInput}
use skill_up.Users.Verify.{normalize_email, VerifyRequest}
use skill_up.Users.Keys.{verify_rate_key}
use skill_up.Users.Counter.{read_count}
use skill_up.Broker.Topics.{matches, matches-IsTopic}
use skill_up.Notifications.{
  Templating, MailInput, SendMailOptions, Mailer, verification_options, load, first_content,
  candidate_paths,
}
use skill_up.Notifications.Cache.{send_all, send_all_uncached, send_all-uncached}
use skill_up.Notifications.Consumer.{Delivered, consume, consume-Delivered}
use skill_up.Notifications.Journey.{Arrives, payload_value, create_user-Arrives}
use skill_up.Tests.Fixtures.{fresh}
use skill_up.Tests.Registrations.{draw, no_faults, before, bob, after, answered}

abbrev shown : Value → Text
shown (text t) = t
shown v = []

abbrev one_template : Templating
one_template = record {
  Template = Text;
  compile = λ s. s;
  render = λ t o. some (t ++ shown (get (codes "code") o));
  exists = λ p. true;
  read_file = λ p. some (codes "code: ");
  join = λ ps. [];
  dirname = [];
  cwd = [];
}

abbrev input : MailInput
input = record { default_from = codes "skillHUB"; year = 2026; send_mail = false }

abbrev mail : SendMailOptions
mail =
    verification_options one_template (text (codes "a@x.io")) (text (codes "alice"))
      (text (codes "123456"))

abbrev idle : Mailer one_template
idle = record { cache = []; mails = [] }

send_all-uncached_example :
    ((send_all one_template ((input, mail) ∷ (input, mail) ∷ []) idle).0
      ≡ (send_all_uncached one_template ((input, mail) ∷ (input, mail) ∷ []) []).0)
    × (((send_all one_template ((input, mail) ∷ (input, mail) ∷ []) idle).1).mails
        ≡ (send_all_uncached one_template ((input, mail) ∷ (input, mail) ∷ []) []).1)
send_all-uncached_example = send_all-uncached one_template ((input, mail) ∷ (input, mail) ∷ []) []

-- Every message is that of the registration of the examples.
abbrev parsed : Text → Option Value
parsed content = some (payload_value (email_message (new_user memory bob draw) draw).payload)

consume-Delivered_example :
    (((consume one_template parsed input (some (codes "{}")) idle).0 ≡ some nack)
      × (((consume one_template parsed input (some (codes "{}")) idle).1).mails ≡ []))
    ⊎ (((consume one_template parsed input (some (codes "{}")) idle).0 ≡ some ack)
        × Delivered one_template parsed input
            (codes "{}")
            []
            ((consume one_template parsed input (some (codes "{}")) idle).1).mails)
consume-Delivered_example = consume-Delivered one_template parsed input (codes "{}") idle tt

abbrev entered : VerifyRequest
entered = record {
  email = bob.email;
  code = codes "123456";
  ip_address = [];
  ip_address_alias = [];
  user_agent = [];
  user_agent_alias = [];
}

some_code : memory.sha256 draw.code ≢ []
some_code h = cc

loaded : load one_template (codes "verification-email") ≡ some (codes "code: ")
unfolding load first_content candidate_paths
loaded = refl

none_failed :
    read_count (memory.get (verify_rate_key (normalize_email bob.email)) before.store) ≡ some 0
unfolding read_count
none_failed = refl

-- A serialiser, whose results the parser above reads.
abbrev stringify : Value → Option Text
stringify v = some (codes "{}")

abbrev channel : PublisherInput
channel = record { default_exchange = undefined; uuid = codes "m2"; now = 100; publish = false }

create_user-Arrives_example :
    Arrives memory one_template stringify parsed matches bob draw channel input idle
      (codes "code: 123456")
      entered
      fresh
      before
      after
      []
unfolding spread get put text_eq trim
create_user-Arrives_example =
    create_user-Arrives memory one_template stringify parsed matches bob draw channel input idle
      (codes "code: 123456") entered fresh before after memory_redis memory-IsDatabase
      matches-IsTopic no_faults (codes "u2") (codes "{}") [] (codes "code: ") 0 answered refl refl
      refl tt loaded refl refl refl refl some_code none_failed (omega arith)
