-- ===== src/Notifications/Cache.antt =====
-- The template cache: what a sequence of mails comes to with it and without it.
use skill_up.Base.{
  ◌≡◌, refl, ◌∙◌, subst, Bool, false, Option, none, some, List, [], ◌∷◌, ◌++◌, All, All-append,
  Bool-cases, inl, inr, arith,
}
use skill_up.Text.{Text, text_eq, text_eq→eq}
use skill_up.Notifications.{
  Templating, Mail, SendMailOptions, MailInput, Mailer, cached, load, get_template, with_year,
  submit, send_email,
}

module _ (H : Templating) where
  -- Every template of the cache is the one that the files yield now.
  abbrev pub Current : List (Text × H.Template) → Type 0
  Current = All λ e. load H (e.0) ≡ some e.1

  pub cached-Current :
      (name : Text) (cache : List (Text × H.Template)) (t : H.Template)
      → Current cache
      → cached H name cache ≡ some t
      → load H name ≡ some t
  unfolding cached
  cached-Current name [] t c h = cc
  cached-Current name ((k, u) ∷ cache) t (now, c) h = elim (Bool-cases (text_eq k name)) [
    | inl same ↦ rw (← text_eq→eq k name same) (now ∙ (rw same at h))
    | inr other ↦ cached-Current name cache t c (rw other at h)
  ]

  -- The reference: the template is read from the files for each mail.
  unfoldable pub send_uncached : MailInput → SendMailOptions → List Mail → Bool × List Mail
  send_uncached i o mails = elim (load H o.template) [
    | none ↦ (false, mails)
    | some t ↦
        let (sent, m) =
          submit H i o (H.render t (with_year H i o.context))
            (record { cache = []; mails = mails }) in
        (sent, m.mails)
  ]

  -- The same answer and mails, and a cache that is still current.
  pub record Agrees (x : Bool × Mailer H) (y : Bool × List Mail) : Type 0 where
    pub answer : x.0 ≡ y.0
    pub mails : (x.1).mails ≡ y.1
    pub cache : Current (x.1).cache

  submit-Agrees :
      (i : MailInput) (o : SendMailOptions) (html : Option Text) (m : Mailer H) (ms : List Mail)
      → Current m.cache
      → m.mails ≡ ms
      → Agrees (submit H i o html m) (
        (submit H i o html (record { cache = []; mails = ms })).0,
        ((submit H i o html (record { cache = []; mails = ms })).1).mails,
      )
  unfolding submit
  submit-Agrees i o none m ms c same = record { answer = refl; mails = same; cache = c }
  submit-Agrees i o (some html) m ms c same = ground arith

  send_email-Agrees :
      (i : MailInput) (o : SendMailOptions) (m : Mailer H)
      → Current m.cache
      → Agrees (send_email H i o m) (send_uncached i o m.mails)
  unfolding send_email send_uncached get_template
  send_email-Agrees i o m c = go (cached H o.template m.cache) (load H o.template) refl refl
    where
      go :
          (q l : Option H.Template)
          → cached H o.template m.cache ≡ q
          → load H o.template ≡ l
          → Agrees (send_email H i o m) (send_uncached i o m.mails)
      go (some t) l hit now =
          rw
            (
              hit,
              cached-Current o.template m.cache t c hit,
              send_email,
              send_uncached,
              get_template,
            )
            (submit-Agrees i o (H.render t (with_year H i o.context)) m m.mails c refl)
      go none none miss now =
          rw (miss, now, send_email, send_uncached, get_template)
            (record { answer = refl; mails = refl; cache = c })
      go none (some t) miss now =
          rw (miss, now, send_email, send_uncached, get_template)
            (submit-Agrees i o (H.render t (with_year H i o.context))
              (record m { cache = m.cache ++ (o.template, t) ∷ [] }) m.mails
              (All-append (λ e. load H (e.0) ≡ some e.1) m.cache _ c (now, tt)) refl)

  unfoldable pub send_all : List (MailInput × SendMailOptions) → Mailer H → List Bool × Mailer H
  send_all [] m = ([], m)
  send_all ((i, o) ∷ os) m =
      let (sent, m') = send_email H i o m in let (rest, m'') = send_all os m' in (sent ∷ rest, m'')

  unfoldable pub send_all_uncached :
      List (MailInput × SendMailOptions) → List Mail → List Bool × List Mail
  send_all_uncached [] mails = ([], mails)
  send_all_uncached ((i, o) ∷ os) mails =
      let (sent, mails') = send_uncached i o mails in
      let (rest, mails'') = send_all_uncached os mails' in (sent ∷ rest, mails'')

  -- While the files stay as they are, any sequence of mails has with the cache, from an empty one,
  -- the answers and the accepted mails that it has where each template is read anew.
  pub send_all-uncached :
      (os : List (MailInput × SendMailOptions)) (mails : List Mail)
      → ((send_all os (record { cache = []; mails = mails })).0 ≡ (send_all_uncached os mails).0)
        × (((send_all os (record { cache = []; mails = mails })).1).mails
            ≡ (send_all_uncached os mails).1)
  unfolding send_all send_all_uncached
  send_all-uncached os mails = go os (record { cache = []; mails = mails }) mails tt refl
    where
      go :
          (os : List (MailInput × SendMailOptions)) (m : Mailer H) (ms : List Mail)
          → Current m.cache
          → m.mails ≡ ms
          → ((send_all os m).0 ≡ (send_all_uncached os ms).0)
            × (((send_all os m).1).mails ≡ (send_all_uncached os ms).1)
      go [] m ms c same = (refl, same)
      go ((i, o) ∷ os) m ms c same =
          let a =
            subst (λ ms. Agrees (send_email H i o m) (send_uncached i o ms)) same
              (send_email-Agrees i o m c) in
          let (rest, later) =
            go os (send_email H i o m).1 (send_uncached i o ms).1 a.cache a.mails in
          (rw (a.answer, rest) refl, later)
