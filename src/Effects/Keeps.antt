-- ===== src/Effects/Keeps.antt =====
-- Methods that keep a property of the store, whatever calls reject.
use skill_up.Base.{Bool, true, false}
use skill_up.Services.{Services}
use skill_up.Effects.{Thrown, World, Run, ok, err, M, ◌>>=◌, call, catch, branch, state}

module _ {S : Services} (P : S.Store → Type 0) where
  abbrev pub Keeps : {A : Type 0} → M S A → Type 0
  Keeps m = (w : World S) → P w.store → P (state (m w)).store

  pub Keeps->>= :
      {A B : Type 0} (m : M S A) (f : A → M S B)
      → Keeps m
      → ((a : A) → Keeps (f a))
      → Keeps (m >>= f)
  Keeps->>= {A} {B} m f h k w p = go (m w) (h w p)
    where
      go :
          (r : Run S A)
          → P (state r).store
          → P (state (elim r as (λ _. Run S B) [ ok a v ↦ f a v | err e v ↦ err e v ])).store
      go (ok a v) q = k a v q
      go (err e v) q = q

  pub Keeps-call : {A : Type 0} (down : Bool) (m : M S A) → Keeps m → Keeps (call down m)
  Keeps-call true m h w p = p
  Keeps-call false m h w p = h w p

  pub Keeps-branch :
      {A : Type 0} (b : Bool) (m n : M S A) → Keeps m → Keeps n → Keeps (branch b m n)
  Keeps-branch true m n h k w p = h w p
  Keeps-branch false m n h k w p = k w p

  pub Keeps-catch :
      {A : Type 0} (m : M S A) (n : Thrown → M S A)
      → Keeps m
      → ((e : Thrown) → Keeps (n e))
      → Keeps (catch m n)
  Keeps-catch {A} m n h k w p = go (m w) (h w p)
    where
      go :
          (r : Run S A)
          → P (state r).store
          → P (state (elim r as (λ _. Run S A) [ ok a v ↦ ok a v | err e v ↦ n e v ])).store
      go (ok a v) q = q
      go (err e v) q = k e v q
