-- ===== src/Notifications.antt =====
-- apps/notifications-service/src/mail/mail.service.ts: `getTemplate`, `sendEmail` and
-- `sendVerificationEmail`. Handlebars, the file system, `path.join` and the SMTP server are
-- parameters; the state is the template cache and the mails that the server has accepted.
pub mod Cache
pub mod Consumer
pub mod Journey
use skill_up.Base.{ℕ, Bool, true, false, Option, none, some, List, [], ◌∷◌, ◌++◌, if◌then◌else◌}
use skill_up.Text.{Text, codes, text_eq}
use skill_up.Values.{Value, text, number, Object, empty, property, spread}

-- What the service calls: `handlebars.compile`, which compiles lazily, a compiled template, which
-- may throw, `existsSync`, `readFileSync`, which may throw, and `path.join`.
pub record Templating : Type 1 where
  pub Template : Type 0
  pub compile : Text → Template
  pub render : Template → Object → Option Text
  pub exists : Text → Bool
  pub read_file : Text → Option Text
  pub join : List Text → Text
  pub dirname : Text
  pub cwd : Text

pub record Mail : Type 0 where
  pub from : Text
  pub to : Value
  pub subject : Text
  pub html : Text

pub record SendMailOptions : Type 0 where
  pub to : Value
  pub subject : Text
  pub template : Text
  pub context : Object

-- The sender, the year, and whether `sendMail` rejects.
pub record MailInput : Type 0 where
  pub default_from : Text
  pub year : ℕ
  pub send_mail : Bool

module _ (H : Templating) where
  pub record Mailer : Type 0 where
    pub cache : List (Text × H.Template)
    pub mails : List Mail

  -- `templateCache.get(name)`
  unfoldable pub cached : Text → List (Text × H.Template) → Option H.Template
  cached name [] = none
  cached name ((k, t) ∷ ts) = let rest = cached name ts in if text_eq k name then some t else rest

  unfoldable pub candidate_paths : Text → List Text
  candidate_paths name =
      H.join (H.dirname ∷ codes "templates" ∷ (name ++ codes ".hbs") ∷ [])
      ∷ H.join (H.dirname ∷ codes "../templates" ∷ (name ++ codes ".hbs") ∷ [])
      ∷ H.join (H.dirname ∷ codes "../../templates" ∷ (name ++ codes ".hbs") ∷ [])
      ∷ H.join
          (H.cwd ∷ codes "apps/notifications-service/src/templates" ∷ (name ++ codes ".hbs") ∷ [])
      ∷ H.join
          (H.cwd ∷ codes "dist/apps/notifications-service/templates" ∷ (name ++ codes ".hbs") ∷ [])
      ∷ H.join (
          H.cwd
          ∷ codes "dist/apps/notifications-service/apps/notifications-service/src/templates"
          ∷ (name ++ codes ".hbs")
          ∷ [])
      ∷ []

  -- The loop: the content of the first path that exists. An empty content, an unreadable file and
  -- the end of the list all throw.
  unfoldable pub first_content : List Text → Option Text
  first_content [] = none
  first_content (p ∷ ps) = let rest = first_content ps in if H.exists p then H.read_file p else rest

  abbrev pub non_empty : Option Text → Option Text
  non_empty none = none
  non_empty (some []) = none
  non_empty (some (c ∷ s)) = some (c ∷ s)

  unfoldable pub load : Text → Option H.Template
  load name = elim (non_empty (first_content (candidate_paths name))) [
    | none ↦ none
    | some content ↦ some (H.compile content)
  ]

  -- The compiled template and the cache; `none` is the exception.
  unfoldable pub get_template :
      Text → List (Text × H.Template) → Option (H.Template × List (Text × H.Template))
  get_template name cache = elim (cached name cache) [
    | some t ↦ some (t, cache)
    | none ↦ elim (load name) [ none ↦ none | some t ↦ some (t, cache ++ (name, t) ∷ []) ]
  ]

  abbrev pub with_year : MailInput → Object → Object
  with_year i context = spread context (property (codes "year") (number i.year) empty)

  -- `sendMail` on the rendered text; `none` is the exception of the template.
  unfoldable pub submit : MailInput → SendMailOptions → Option Text → Mailer → Bool × Mailer
  submit i o none m = (false, m)
  submit i o (some html) m = if i.send_mail then (false, m) else (
    true,
    record m {
      mails =
          m.mails
          ++ record { from = i.default_from; to = o.to; subject = o.subject; html = html } ∷ [];
    },
  )

  -- Whether it resolves, and the state behind it.
  unfoldable pub send_email : MailInput → SendMailOptions → Mailer → Bool × Mailer
  send_email i o m = elim (get_template o.template m.cache) [
    | none ↦ (false, m)
    | some (t, cache) ↦ submit i o (H.render t (with_year i o.context)) (record m { cache = cache })
  ]

  abbrev pub verification_context : Value → Value → Value → Object
  verification_context email username code =
      property (codes "email") email
        (property (codes "username") username (property (codes "code") code empty))

  abbrev pub verification_options : Value → Value → Value → SendMailOptions
  verification_options email username code = record {
    to = email;
    subject = codes "Verify your SkillHUB account";
    template = codes "verification-email";
    context = verification_context email username code;
  }

  unfoldable pub send_verification_email :
      MailInput → Value → Value → Value → Mailer → Bool × Mailer
  send_verification_email i email username code m =
      send_email i (verification_options email username code) m
