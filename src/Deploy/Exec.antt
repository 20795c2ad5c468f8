-- ===== src/Deploy/Exec.antt =====
-- The scheduler at work: its state, and the sequence of its fallible parts.
use server_cli.Common.{ℕ, List, Result, ok, err}
use server_cli.Deploy.Model.{Operation, OperationTarget, Step, DeployDb}

-- What others commit while the scheduler waits once, and the time after the wait.
pub record Round : Type 0 where
  pub commit : DeployDb → DeployDb
  pub later : ℕ

-- The scheduler at work on one target: the database, the time, how many identifiers are drawn,
-- the waits of each poll to come, and the rows that it holds in memory.
pub record Exec : Type 0 where
  pub db : DeployDb
  pub now : ℕ
  pub drawn : ℕ
  pub polls : List (List Round)
  pub op : Operation
  pub t : OperationTarget
  pub step : Step

-- `if err != nil { return err }` between two parts.
infixl 5 ◌▷◌
unfoldable pub ◌▷◌ :
    {A B : Type 0} → Exec × Result A → (Exec → A → Exec × Result B) → Exec × Result B
(x, err e) ▷ k = (x, err e)
(x, ok a) ▷ k = k x a
