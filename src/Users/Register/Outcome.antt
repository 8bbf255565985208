-- ===== src/Users/Register/Outcome.antt =====
-- What `createUser` has done when it answers.
use skill_up.Base.{suc, ap, ◌∙◌, subst, ◌≡◌, refl, Bool, true, false, none, arith, if◌then◌else◌}
use skill_up.Text.{Text, trim}
use skill_up.Services.{Services}
use skill_up.Effects.{Thrown, rpc, rejected, World, Run, ok, err}
use skill_up.Effects.Transaction.{begin, roll_back, finally}
use skill_up.Users.Verify.{normalize_email}
use skill_up.Users.Register.{
  CreateUserRequest, RegisterFaults, Draw, temp_key_of, user_id_of, photo_of, clashes,
  email_message, new_user, prepare, record_events, drop_code, register_error, fail, complete,
  attempt_registration, create_user,
}
use skill_up.Users.Register.Steps.{
  with_photo, with_code, with_mark, registered, Unused, prepare-ok, record_events-ok,
}

module _ (S : Services) (f : RegisterFaults) where
  fail-ok :
      (stored : Bool) (email : Text) (before : S.Rows) (e : Thrown) (w v : World S) {i : Text}
      → ¬ (fail S f stored email before e w ≡ ok i v)
  unfolding fail finally roll_back register_error drop_code
  fail-ok stored email before (rpc c m) w v h = ground arith
  fail-ok stored email before rejected w v h = ground arith

  -- What a registration that is answered has checked, and the state that it leaves.
  pub record Created (r : CreateUserRequest) (draw : Draw) (i : Text) (w w' : World S)
      : Type 0 where
    pub free : S.find_user (clashes (normalize_email r.email) (trim r.username)) w.rows ≡ none
    pub unused :
        Unused S
          (temp_key_of r)
          (photo_of r draw)
          (with_code S (normalize_email r.email) draw.code w.store)
    pub reply : i ≡ user_id_of r draw
    pub state : w' ≡ record {
      rows = registered S r draw w.rows;
      store =
          with_mark S
            (temp_key_of r)
            (photo_of r draw)
            (with_code S (normalize_email r.email) draw.code w.store);
      triggers = suc w.triggers;
    }

  finally-ok :
      (down : Bool) (i i' : Text) (w v : World S)
      → finally {S = S} down (ok i w) ≡ ok i' v
      → (i' ≡ i) × (v ≡ w)
  unfolding finally
  finally-ok down i i' w v h = ground arith

  begin-ok :
      (c t : Bool) (w : World S) (r : Run S Text) {i : Text} {v : World S}
      → begin c t w r ≡ ok i v
      → r ≡ ok i v
  unfolding begin
  begin-ok true t w r h = cc
  begin-ok false true w r h = cc
  begin-ok false false w r h = h

  committed :
      (r : CreateUserRequest) (draw : Draw) (before : S.Rows) (lost : Bool) (x v : World S)
      {i : Text}
      → (if lost
          then fail S f true (normalize_email r.email) before rejected x
          else finally f.tx.release
              (ok (user_id_of r draw) (record x { triggers = suc x.triggers })))
        ≡ ok i v
      → (i ≡ user_id_of r draw) × (v ≡ record x { triggers = suc x.triggers })
  committed r draw before true x v h =
      absurd (fail-ok true (normalize_email r.email) before rejected x v h)
  committed r draw before false x v {i} h =
      finally-ok f.tx.release (user_id_of r draw) i (record x { triggers = suc x.triggers }) v h

  completed :
      (r : CreateUserRequest) (draw : Draw) (before : S.Rows) (w v : World S) {i : Text}
      → complete S f r draw before w ≡ ok i v
      → (x : World S) × (record_events S f r draw w ≡ ok tt x)
        × (i ≡ user_id_of r draw)
        × (v ≡ record x { triggers = suc x.triggers })
  unfolding complete
  completed r draw before w v {i} h = go (record_events S f r draw w) refl h
    where
      go :
          (q : Run S (Unit {0}))
          → record_events S f r draw w ≡ q
          → elim q [
            | err e x ↦ fail S f true (normalize_email r.email) before e x
            | ok _ x ↦
                if f.tx.commit
                then fail S f true (normalize_email r.email) before rejected x
                else finally f.tx.release
                    (ok (user_id_of r draw) (record x { triggers = suc x.triggers }))
          ]
            ≡ ok i v
          → (x : World S) × (record_events S f r draw w ≡ ok tt x)
            × (i ≡ user_id_of r draw)
            × (v ≡ record x { triggers = suc x.triggers })
      go (err e x) q k = absurd (fail-ok true (normalize_email r.email) before e x v k)
      go (ok _ x) q k = let (a, b) = committed r draw before f.tx.commit x v k in (x, q, a, b)

  prepared :
      (r : CreateUserRequest) (draw : Draw) (w v : World S) {i : Text}
      → attempt_registration S f r draw w ≡ ok i v
      → (x : World S) × (prepare S f r draw w ≡ ok tt x) × (complete S f r draw w.rows x ≡ ok i v)
  unfolding attempt_registration
  prepared r draw w v {i} h = go (prepare S f r draw w) refl h
    where
      go :
          (q : Run S (Unit {0}))
          → prepare S f r draw w ≡ q
          → elim q [
            | err e x ↦ fail S f false (normalize_email r.email) w.rows e x
            | ok _ x ↦ complete S f r draw w.rows x
          ]
            ≡ ok i v
          → (x : World S) × (prepare S f r draw w ≡ ok tt x)
            × (complete S f r draw w.rows x ≡ ok i v)
      go (err e x) q k = absurd (fail-ok false (normalize_email r.email) w.rows e x v k)
      go (ok _ x) q k = (x, q, k)

  -- A registration that is answered found no user of that email or username and no consumed upload;
  -- it leaves a new PENDING user, the hash of the code for ten minutes, the cooldown, exactly the
  -- events of the registration in the outbox and the upload consumed, and triggers the worker once.
  pub create_user-Created :
      (r : CreateUserRequest) (draw : Draw) (i : Text) (w w' : World S)
      → create_user S f r draw w ≡ ok i w'
      → Created r draw i w w'
  unfolding create_user
  create_user-Created r draw i w w' h =
      let (w1, p, h1) = prepared r draw w w' (begin-ok f.tx.connect f.tx.start w _ h) in
      let (w2, q, reply, last) = completed r draw w.rows w1 w' h1 in
      let (free, v1) = prepare-ok S f r draw w w1 p in
      let (unused, v2) = record_events-ok S f r draw w1 w2 q in
      record {
        free = free;
        unused =
            subst (λ (x : World S). Unused S (temp_key_of r) (photo_of r draw) x.store) v1 unused;
        reply = reply;
        state =
            last
            ∙ ap (λ (x : World S). record x { triggers = suc x.triggers }) v2
            ∙ ap
                (λ (x : World S). record x {
                  rows =
                      with_photo S (temp_key_of r) (new_user S r draw) (photo_of r draw) draw
                        (S.save_outbox (email_message (new_user S r draw) draw) x.rows);
                  store = with_mark S (temp_key_of r) (photo_of r draw) x.store;
                  triggers = suc x.triggers;
                })
                v1;
      }
