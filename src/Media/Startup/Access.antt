-- ===== src/Media/Startup/Access.antt =====
-- Who may read which object once the media service has started.
use skill_up.Base.{
  ◌≡◌, refl, Bool, true, false, ◌||◌, ◌&&◌, List, [], ◌∷◌, ◌++◌, all, not, ◌==◌, arith,
  append_assoc, ◌∙◌, ap, sym,
}
use skill_up.Text.{Text, codes, text_eq, starts_with}
use skill_up.Media.Startup.{
  Statement, Rule, Bucket, StartupFaults, arn, public_read_policy, lifecycle_config,
  ensure_public_read_policy, ensure_lifecycle_policy, ensure_bucket, on_module_init,
}

abbrev pub plain : Text → Bool
plain = all (λ c. not (c == b'*' || c == b'?'))

-- The documented behaviour of a resource pattern: a final `*` stands for any text.
pub record IsGlob (glob : Text → Text → Bool) : Type 0 where
  pub tail : (p x : Text) → plain p ≡ true → glob (p ++ codes "*") x ≡ starts_with p x

module _ (glob : Text → Text → Bool) where
  abbrev pub any_resource : List Text → Text → Bool
  any_resource [] x = false
  any_resource (r ∷ rs) x = glob r x || any_resource rs x

  -- Whether a statement lets everyone read the object.
  unfoldable pub may_read : List Statement → Text → Text → Bool
  may_read [] bucket key = false
  may_read (s ∷ ss) bucket key =
      (text_eq s.action (codes "s3:GetObject")
        && any_resource s.resources (arn bucket ++ codes "/" ++ key))
      || may_read ss bucket key

-- Whether a rule expires the object after so many days at the latest.
unfoldable pub expires : List Rule → Text → Bool
expires [] key = false
expires (r ∷ rs) key = starts_with r.prefix key || expires rs key

starts_with-append : (p q s : Text) → starts_with (p ++ q) (p ++ s) ≡ starts_with q s
unfolding starts_with
starts_with-append [] q s = refl
starts_with-append (c ∷ p) q s = ground (arith, starts_with-append p q s)

plain-append : (p q : Text) → plain p ≡ true → plain q ≡ true → plain (p ++ q) ≡ true
plain-append [] q h k = k
plain-append (c ∷ p) q h k = ground (arith, plain-append p q)

or_false : (b : Bool) → (b || false) ≡ b
or_false true = refl
or_false false = refl

two_or_false : (a b : Bool) → ((a || (b || false)) || false) ≡ (a || b)
two_or_false a b = ground arith

folder_lem :
    {glob : Text → Text → Bool} (law : IsGlob glob) (n folder key : Text)
    → plain n ≡ true
    → plain folder ≡ true
    → glob (n ++ (codes "/" ++ folder ++ codes "*")) (n ++ codes "/" ++ key)
      ≡ starts_with folder key
unfolding starts_with
folder_lem {glob} law n folder key named h =
    let p = n ++ codes "/" ++ folder in
    let x = n ++ codes "/" ++ key in
    let a = append_assoc n (codes "/" ++ folder) (codes "*") in
    let b = append_assoc n (codes "/") folder in
    let c = append_assoc n (codes "/") key in
    ap (λ q. glob q x) (sym a ∙ ap (λ q. q ++ codes "*") (sym b))
    ∙ law.tail p x (rw b (plain-append n (codes "/" ++ folder) named h))
    ∙ rw (b, c) (starts_with-append n (codes "/" ++ folder) (codes "/" ++ key))

module _ {glob : Text → Text → Bool} (law : IsGlob glob) (bucket : Text)
    (named : plain bucket ≡ true) where
  reads_folders :
      (key : Text)
      → may_read glob (public_read_policy bucket) bucket key
        ≡ (starts_with (codes "profile_photos") key || starts_with (codes "avatars") key)
  unfolding may_read public_read_policy text_eq
  reads_folders key =
      rw
        (
          folder_lem law (arn bucket) (codes "profile_photos") key named refl,
          folder_lem law (arn bucket) (codes "avatars") key named refl,
          may_read,
        )
        (two_or_false (starts_with (codes "profile_photos") key)
          (starts_with (codes "avatars") key))

  -- The bucket is there, everyone may read exactly the objects below `profile_photos` and `avatars`,
  -- and exactly those below `temp_uploads/` expire.
  pub record Access (b : Bucket) : Type 0 where
    pub exists : b.exists ≡ true
    pub readable :
        (key : Text)
        → may_read glob b.policy bucket key
          ≡ (starts_with (codes "profile_photos") key || starts_with (codes "avatars") key)
    pub temporary : (key : Text) → expires b.rules key ≡ starts_with (codes "temp_uploads/") key

  started :
      Access
        (record { exists = true; policy = public_read_policy bucket; rules = lifecycle_config })
  unfolding expires lifecycle_config
  started = record {
    exists = refl;
    readable = reads_folders;
    temporary = λ key. or_false (starts_with (codes "temp_uploads/") key);
  }

  -- Where MinIO answers, the start leaves the bucket there, lets everyone read exactly the objects
  -- below `profile_photos` and `avatars`, and expires exactly those below `temp_uploads/`, whatever it
  -- has found: an upload is private and expires, an avatar at its target is public and stays.
  pub on_module_init-Access :
      (f : StartupFaults) (b : Bucket)
      → f.bucket_exists ≡ false
      → f.make_bucket ≡ false
      → f.set_policy ≡ false
      → f.set_lifecycle ≡ false
      → Access (on_module_init f bucket b)
  unfolding on_module_init ensure_bucket ensure_public_read_policy ensure_lifecycle_policy
  on_module_init-Access f b up made set set' = go b.exists refl
    where
      go : (q : Bool) → b.exists ≡ q → Access (on_module_init f bucket b)
      go true e = rw (up, e, set, set', on_module_init, ensure_bucket) started
      go false e = rw (up, e, made, set, set', on_module_init, ensure_bucket) started
