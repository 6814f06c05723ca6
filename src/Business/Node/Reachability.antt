-- ===== src/Business/Node/Reachability.antt =====
-- The database at every state that the node can reach.
use validatornode.Database.Models.{Database}
use validatornode.Database.Kept.{IsPreserved}
use validatornode.Business.Client.{Env}
use validatornode.Business.State.{State}
use validatornode.Business.Kept.Node.{Reachable-IsKept}
use validatornode.Business.Preserved.{IsSoundClient, InState-IsKept}
use validatornode.Business.Node.{Reachable}

module _ {W : Type 0} (Q : Database → Type 0) (preserved : IsPreserved Q) (env : Env W)
    (sound : IsSoundClient Q preserved env) where
  -- What the functions of database/access.py keep, if the blockchain client's own use of the
  -- database keeps it, holds in every state that the node can reach, whatever the steps and
  -- whatever their exceptions.
  pub Reachable-IsPreserved : (s s' : State W) → Q s.database → Reachable env s s' → Q s'.database
  Reachable-IsPreserved = Reachable-IsKept env (InState-IsKept Q preserved env sound)
