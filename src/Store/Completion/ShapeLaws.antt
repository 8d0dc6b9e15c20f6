-- ===== src/Store/Completion/ShapeLaws.antt =====
-- What the shape of a completion says of its next actions.
use agent_loom.Base.{◌≡◌, arith, passed}
use agent_loom.Domain.Status.{is_terminal_run}
use agent_loom.Store.Completion.{CompleteTask}
use agent_loom.Store.Completion.Shape.{validate_completion_shape}
use agent_loom.Store.Completion.Actions.{next_transition}

-- A completion of a valid shape ends its run exactly if it gives it a status that is terminal.
pub shape-terminal :
    (command : CompleteTask)
    → validate_completion_shape command ≡ passed
    → (next_transition command.next).terminal
      ≡ is_terminal_run (next_transition command.next).status
unfolding validate_completion_shape next_transition
shape-terminal command h = ground arith
