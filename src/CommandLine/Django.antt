-- ===== src/CommandLine/Django.antt =====
-- django.core.management.execute_from_command_line, as far as its callers see it: a command is issued, and
-- it returns or it raises.
use flagsmith_common.Base.{ℕ, Bool, false, not, String, List, [], ◌∷◌, ◌++◌, length, if◌then◌else◌}

-- The arguments of a command, without the name of the program.
abbrev pub Command : Type 0
Command = List String

-- A process, with the commands that it has issued, and whether one of them raised. Nothing comes after.
pub record Process : Type 0 where
  pub issued : List Command
  pub raised : Bool

abbrev pub new_process : Process
new_process = record { issued = []; raised = false }

-- Whether a command returns, after so many other ones.
module _ (returns : ℕ → Command → Bool) where
  unfoldable pub django : Command → Process → Process
  django command p = if p.raised then p else record {
    issued = p.issued ++ command ∷ [];
    raised = not (returns (length p.issued) command);
  }

  -- for x in xs: step(x)
  unfoldable pub for_each {ℓ} : {A : Type ℓ} → (A → Process → Process) → List A → Process → Process
  for_each step [] p = p
  for_each step (x ∷ xs) p = for_each step xs (step x p)
