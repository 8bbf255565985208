-- ===== src/Effects/Inversion.antt =====
-- What a sequence's result says of its steps.
use skill_up.Base.{ap, sym, subst, ◌≡◌, refl, Bool, true, false, Bool-cases, inl, inr, ◌⊎◌, arith}
use skill_up.Services.{Services}
use skill_up.Effects.{World, Run, ok, err, M, ◌>>=◌, Thrown, rejected, call, reads, queries}
use skill_up.Effects.Transaction.{TxFaults, transaction, begin, settle, roll_back, finally}

module _ {S : Services} {A B : Type 0} where
  -- The steps of a sequence that returned.
  pub >>=-ok :
      (m : M S A) (f : A → M S B) (w : World S) {b : B} {w' : World S}
      → (m >>= f) w ≡ ok b w'
      → (a : A) × (v : World S) × (m w ≡ ok a v) × (f a v ≡ ok b w')
  >>=-ok m f w h = go (m w) refl h
    where
      go :
          {b : B} {w' : World S} (r : Run S A)
          → m w ≡ r
          → elim r [ ok a v ↦ f a v | err e v ↦ err e v ] ≡ ok b w'
          → (a : A) × (v : World S) × (m w ≡ ok a v) × (f a v ≡ ok b w')
      go (ok a v) e h = (a, v, e, h)
      go (err x v) e h = cc

  -- A sequence throws by its first step or by its second.
  pub >>=-err :
      (m : M S A) (f : A → M S B) (w : World S) {e : Thrown} {w' : World S}
      → (m >>= f) w ≡ err e w'
      → (m w ≡ err e w') ⊎ ((a : A) × (v : World S) × (m w ≡ ok a v) × (f a v ≡ err e w'))
  >>=-err m f w h = go (m w) refl h
    where
      go :
          {e : Thrown} {w' : World S} (r : Run S A)
          → m w ≡ r
          → elim r [ ok a v ↦ f a v | err x v ↦ err x v ] ≡ err e w'
          → (m w ≡ err e w') ⊎ ((a : A) × (v : World S) × (m w ≡ ok a v) × (f a v ≡ err e w'))
      go (ok a v) q h = inr (a, v, q, h)
      go (err x v) q h = inl cc

module _ {S : Services} {A : Type 0} where
  -- A read that answered.
  pub reads-ok :
      (down : Bool) (g : S.Store → A) (w v : World S) {a : A}
      → call down (reads g) w ≡ ok a v
      → (v ≡ w) × (a ≡ g w.store)
  reads-ok down g w v h = ground arith

  pub reads-err :
      (down : Bool) (g : S.Store → A) (w v : World S) {e : Thrown}
      → call down (reads g) w ≡ err e v
      → v ≡ w
  reads-err down g w v h = ground arith

  pub queries-ok :
      (down : Bool) (g : S.Rows → A) (w v : World S) {a : A}
      → call down (queries g) w ≡ ok a v
      → (v ≡ w) × (a ≡ g w.rows)
  queries-ok down g w v h = ground arith

module _ {S : Services} {A : Type 0} (f : TxFaults) (body : M S A) (handler : Thrown → M S A)
    (throws : (e : Thrown) (w : World S)
      → (e' : Thrown) × (v : World S) × (handler e w ≡ err e' v) × (v.rows ≡ w.rows)) where
  roll_back-err :
      (before : S.Rows) (e : Thrown) (w : World S)
      → (e' : Thrown) × (v : World S) × (roll_back f.rollback handler before e w ≡ err e' v)
        × (v.rows ≡ before)
  unfolding roll_back
  roll_back-err before e w = elim (Bool-cases f.rollback) [
    | inl down ↦ (rejected, record w { rows = before }, rw down refl, refl)
    | inr up ↦ let (e', v, h, r) = throws e (record w { rows = before }) in (e', v, rw up h, r)
  ]

  settle_rolled_back :
      (before : S.Rows) (e : Thrown) (w : World S)
      → (e' : Thrown) × (v : World S) × (finally f.release (roll_back f.rollback handler before e w)
          ≡ err e' v)
        × (v.rows ≡ before)
  unfolding finally
  settle_rolled_back before e w =
      let (e', v, h, r) = roll_back-err before e w in
      elim (Bool-cases f.release) [
        | inl down ↦ (rejected, v, rw (h, down) refl, r)
        | inr up ↦ (e', v, rw (h, up) refl, r)
      ]

  finally-ok :
      {a : A} {v : World S} (b : A) (x : World S)
      → finally f.release (ok b x) ≡ ok a v
      → ok b x ≡ ok a v
  unfolding finally
  finally-ok b x h = ground arith

  err_state : {d e : Thrown} {x v : World S} → ◌≡◌ {A = Run S A} (err d x) (err e v) → x ≡ v
  err_state h = cc

  settle-ok :
      (before : S.Rows) (r : Run S A) {a : A} {v : World S}
      → settle f handler before r ≡ ok a v
      → r ≡ ok a v
  unfolding settle
  settle-ok before (ok b x) h = elim (Bool-cases f.commit) [
    | inl down ↦ let (e', v', e, _) = settle_rolled_back before rejected x in cc (rw (down, e) at h)
    | inr up ↦ finally-ok b x (rw up at h)
  ]
  settle-ok before (err e x) h =
      let (e', v', q, _) = settle_rolled_back before e x in cc (rw q at h)

  committed :
      {e : Thrown} {v : World S} (b : A) (x : World S)
      → finally f.release (ok b x) ≡ err e v
      → (a : A) × (ok b x ≡ ok a v) × (f.release ≡ true) × (e ≡ rejected)
  unfolding finally
  committed b x h = (b, ground arith, ground arith, ground arith)

  settle-err :
      (before : S.Rows) (r : Run S A) {e : Thrown} {v : World S}
      → settle f handler before r ≡ err e v
      → (v.rows ≡ before) ⊎ ((a : A) × (r ≡ ok a v) × (f.release ≡ true) × (e ≡ rejected))
  unfolding settle
  settle-err before (ok b x) {e} {v} h = elim (Bool-cases f.commit) [
    | inl down ↦
        let (e', v', q, same) = settle_rolled_back before rejected x in
        inl (subst (λ (y : World S). y.rows ≡ before) (err_state (rw (down, q) at h)) same)
    | inr up ↦ inr (committed b x (rw up at h))
  ]
  settle-err before (err y x) {e} {v} h =
      let (e', v', q, same) = settle_rolled_back before y x in
      inl (subst (λ (y : World S). y.rows ≡ before) (err_state (rw q at h)) same)

  begin-ok :
      (c t : Bool) (w : World S) (r : Run S A) {a : A} {v : World S}
      → begin c t w r ≡ ok a v
      → r ≡ ok a v
  unfolding begin
  begin-ok true t w r h = cc
  begin-ok false true w r h = cc
  begin-ok false false w r h = h

  begin-err :
      (c t : Bool) (w : World S) (r : Run S A) {e : Thrown} {v : World S}
      → begin c t w r ≡ err e v
      → (v.rows ≡ w.rows) ⊎ (r ≡ err e v)
  unfolding begin
  begin-err true t w r h = inl (ap (λ (y : World S). y.rows) (sym (err_state h)))
  begin-err false true w r h = inl (ap (λ (y : World S). y.rows) (sym (err_state h)))
  begin-err false false w r h = inr h

  -- A transaction whose error handler throws returns only what its body returned and committed.
  pub transaction-ok :
      {a : A} (w v : World S) → transaction f body handler w ≡ ok a v → body w ≡ ok a v
  unfolding transaction
  transaction-ok w v h = settle-ok w.rows (body w) (begin-ok f.connect f.start w _ h)

  -- One that throws has left the tables as they were, unless it had committed what its body
  -- returned and failed to release the connection.
  pub transaction-err :
      {e : Thrown} (w v : World S)
      → transaction f body handler w ≡ err e v
      → (v.rows ≡ w.rows) ⊎ ((a : A) × (body w ≡ ok a v) × (f.release ≡ true) × (e ≡ rejected))
  unfolding transaction
  transaction-err w v h = elim (begin-err f.connect f.start w _ h) [
    | inl same ↦ inl same
    | inr late ↦ settle-err w.rows (body w) late
  ]
