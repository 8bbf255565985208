-- ===== src/Effects/Transaction.antt =====
-- The frame that the providers put round a database transaction: `connect` and `startTransaction`,
-- a `try` with the body and the commit, a `catch` that rolls back, and a `finally` that releases.
use skill_up.Base.{Bool, true, false, if◌then◌else◌}
use skill_up.Services.{Services}
use skill_up.Effects.{Thrown, rejected, World, Run, ok, err, M}

pub record TxFaults : Type 0 where
  pub connect : Bool
  pub start : Bool
  pub commit : Bool
  pub rollback : Bool
  pub release : Bool

module _ {S : Services} {A : Type 0} where
  -- `finally { await queryRunner.release() }`
  unfoldable pub finally : Bool → Run S A → Run S A
  finally down (ok a w) = if down then err rejected w else ok a w
  finally down (err e w) = if down then err rejected w else err e w

  -- The `catch` clause: the tables are those from before the transaction.
  unfoldable pub roll_back : Bool → (Thrown → M S A) → S.Rows → Thrown → M S A
  roll_back down handler before e w =
      if down
      then err rejected (record w { rows = before })
      else handler e (record w { rows = before })

  unfoldable pub settle : TxFaults → (Thrown → M S A) → S.Rows → Run S A → Run S A
  settle f handler before (ok a w) =
      finally f.release
        (if f.commit then roll_back f.rollback handler before rejected w else ok a w)
  settle f handler before (err e w) = finally f.release (roll_back f.rollback handler before e w)

  -- `connect()` and `startTransaction()`, which stand before the `try`.
  unfoldable pub begin : Bool → Bool → World S → Run S A → Run S A
  begin true _ w rest = err rejected w
  begin false true w rest = err rejected w
  begin false false w rest = rest

  unfoldable pub transaction : TxFaults → M S A → (Thrown → M S A) → M S A
  transaction f body handler w = begin f.connect f.start w (settle f handler w.rows (body w))
