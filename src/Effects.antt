-- ===== src/Effects.antt =====
-- The effects of an asynchronous method: it reads and writes the services' state, and returns or
-- throws. Every external call takes a Boolean that says whether it rejects; a rejected call changes
-- nothing.
pub mod Transaction
pub mod Inversion
pub mod Keeps
use skill_up.Base.{ℕ, suc, Bool, true, false, Option, none, some, List, if◌then◌else◌}
use skill_up.Text.{Text}
use skill_up.Shared.{User, OutboxMessage}
use skill_up.Shared.Enums.{GrpcStatus}
use skill_up.Services.{Services, Ttl}

-- What a method throws: an `RpcException`, or the rejection of an external call.
pub data Thrown : Type 0 where
  rpc : GrpcStatus → Text → Thrown
  rejected : Thrown

-- The state that the services share; `triggers` counts the calls of `OutboxWorker.trigger`.
pub record World (S : Services) : Type 0 where
  pub store : S.Store
  pub rows : S.Rows
  pub triggers : ℕ

pub data Run (S : Services) (A : Type 0) : Type 0 where
  ok : A → World S → Run S A
  err : Thrown → World S → Run S A

abbrev pub M : Services → Type 0 → Type 0
M S A = World S → Run S A

module _ {S : Services} where
  infixl 5 ◌>>=◌ ◌>>◌
  abbrev pub ◌>>=◌ : {A B : Type 0} → M S A → (A → M S B) → M S B
  ◌>>=◌ m f w = elim (m w) [ ok a w' ↦ f a w' | err e w' ↦ err e w' ]

  abbrev pub ◌>>◌ : {B : Type 0} → M S (Unit {0}) → M S B → M S B
  m >> k = m >>= λ _. k

  abbrev pub pure : {A : Type 0} → A → M S A
  pure a w = ok a w

  abbrev pub throw : {A : Type 0} → Thrown → M S A
  throw e w = err e w

  -- `try { m } catch (e) { h(e) }`
  abbrev pub catch : {A : Type 0} → M S A → (Thrown → M S A) → M S A
  catch m h w = elim (m w) [ ok a w' ↦ ok a w' | err e w' ↦ h e w' ]

  -- An external call that may reject.
  abbrev pub call : {A : Type 0} → Bool → M S A → M S A
  call down m w = elim down [ true ↦ err rejected w | false ↦ m w ]

  -- `if (b) { m } else { n }`, as a step.
  abbrev pub branch : {A : Type 0} → Bool → M S A → M S A → M S A
  branch b m n w = elim b [ true ↦ m w | false ↦ n w ]

  abbrev pub reads : {A : Type 0} → (S.Store → A) → M S A
  reads f w = ok (f w.store) w

  abbrev pub writes : (S.Store → S.Store) → M S (Unit {0})
  writes f w = ok tt (record w { store = f w.store })

  abbrev pub queries : {A : Type 0} → (S.Rows → A) → M S A
  queries f w = ok (f w.rows) w

  abbrev pub saves : (S.Rows → S.Rows) → M S (Unit {0})
  saves f w = ok tt (record w { rows = f w.rows })

  abbrev pub increments : Text → M S ℕ
  increments k w = let (n, s) = S.incr k w.store in ok n (record w { store = s })

-- The state after a request, whether it was answered or refused.
abbrev pub state : {S : Services} {A : Type 0} → Run S A → World S
state (ok a w) = w
state (err e w) = w
