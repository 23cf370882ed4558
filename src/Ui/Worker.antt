-- ===== src/Ui/Worker.antt =====
-- codebase/slint-ui/src/ui_service/worker.rs: the queue of commands and the loop of the worker.
use safechat.Prelude.{
  ℕ, Bool, true, false, Option, none, some, List, [], ◌∷◌, ◌++◌, Result, ok, err, ltb, length,
  if◌then◌else◌,
}
use safechat.Prelude.Bytes.{Bytes, codes}
use safechat.Ui.{Command, operation, Event}
use safechat.Ui.Chat.{ServicePorts}
use safechat.Ui.Service.{Worker, handle_command}

abbrev pub command_queue_size : ℕ
command_queue_size = 16

-- What a user is told of an error: the reason goes to the log alone.
abbrev pub sanitized : Bytes
sanitized = codes "operation failed; see the application log for details"

-- The events of one command.
unfoldable pub events_of : Command → Result Bytes (Option Event) → List Event
unfolding operation
events_of command (err reason) = Event.error (operation command) sanitized ∷ []
events_of command (ok (some event)) = event ∷ []
events_of command (ok none) = []

-- The worker runs as long as there is a queue. `try_send` on the channel of `COMMAND_QUEUE_SIZE` commands.
unfoldable pub submit : Command → List Command → Result Bytes (List Command)
submit command queue =
    if ltb (length queue) command_queue_size
    then ok (queue ++ (command ∷ []))
    else err (codes "client operation queue is busy")

-- `try_submit`: whether the command was accepted.
unfoldable pub try_submit : Command → List Command → Bool × List Command
try_submit command queue =
    if ltb (length queue) command_queue_size
    then (true, queue ++ (command ∷ []))
    else (false, queue)

module _ {S B T H : Type 0} (ports : ServicePorts S B T H) where
  -- One round of the loop.
  unfoldable pub work : Command → Worker S T H → List Event × Worker S T H
  unfolding handle_command events_of
  work command w = let (r, w') = handle_command ports command w in (events_of command r, w')

  -- `worker_loop` on the commands that it receives until the channel closes.
  unfoldable pub worker_loop : List Command → Worker S T H → List Event × Worker S T H
  unfolding work
  worker_loop [] w = ([], w)
  worker_loop (c ∷ commands) w =
      let (events, w1) = work c w in
      let (rest, w2) = worker_loop commands w1 in (events ++ rest, w2)
