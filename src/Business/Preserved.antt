-- ===== src/Business/Preserved.antt =====
-- A predicate of the database that the functions of database/access.py keep, under the steps of the
-- interactors.
use validatornode.Common.{ℕ, List, [], ◌∷◌, All, arith, ◌≡◌}
use mathlib.Core.Path.{subst, sym}
use validatornode.Entities.{CrossChainTransfer}
use validatornode.Database.Models.{Database}
use validatornode.Database.Kept.{IsPreserved}
use validatornode.Business.Client.{Env, TransferToSubmissionStartRequest}
use validatornode.Business.State.{State, schedule_task}
use validatornode.Business.Kept.{IsKept}

-- Nothing has to be known of a transfer.
abbrev pub IsAny : CrossChainTransfer → Type 0
IsAny t = Unit

All-IsAny : (ts : List CrossChainTransfer) → All IsAny ts
All-IsAny [] = tt
All-IsAny (t ∷ ts) = (tt, All-IsAny ts)

module _ {W : Type 0} (Q : Database → Type 0) (preserved : IsPreserved Q) (env : Env W) where
  abbrev pub InState : State W → Type 0
  InState s = Q s.database

  -- `start_transfer_to_submission` writes to the database through the functions of
  -- database/access.py alone.
  abbrev pub IsSoundClient : Type 0
  IsSoundClient =
      (b : ℕ) (r : TransferToSubmissionStartRequest) (d : Database) (w : W)
      → Q d
      → Q (env.client.start_transfer_to_submission b r (d, w)).1.0

  pub InState-IsKept : IsSoundClient → IsKept env InState IsAny
  unfolding schedule_task
  InState-IsKept sound = record {
    on_db = λ m access. record { after = λ s h. (preserved.kept m access).after s.database h };
    on_call = λ m. record { after = λ s h. h };
    on_start = λ b r. record { after = λ s h. sound b r s.database s.world h };
    on_schedule = λ name id t x good has. record {
      after = λ s h.
          let same : (schedule_task env name id t x s).1.database ≡ s.database = ground arith in
          subst Q (sym same) h;
    };
    outside = λ s w h. h;
    good_same = λ t t' same good. tt;
    good_read = λ b n w w' r active e. All-IsAny r.outgoing_transfers;
    good_task = λ s s' task t h queued e. tt;
  }
