-- ===== src/Threads/Obeying/Processes.antt =====
-- internal/worker/worker.go, internal/api/api.go: the requests and the loops.
use infraforge.Calls.{Code, done, call}
use infraforge.Threads.{Mind, learn, Process, serves, consumes, reclaims, ignoring, code_of}
use infraforge.Threads.Discipline.{Obeys}
use infraforge.Threads.Obeying.Looping.{consuming-Obeys, reclaiming-Obeys}
use infraforge.Threads.Obeying.Serving.{serving-Obeys}

ignoring-Obeys : {A : Type 0} (p : Code A) (m : Mind) → Obeys m p → Obeys m (ignoring p)
ignoring-Obeys (done a) m h = tt
ignoring-Obeys (call c rest) m h =
    (h.0, λ r reply. ignoring-Obeys (rest r) (learn c r m) (h.1 r reply))

-- Whatever the services reply, a process writes a record only if its deletion begins, if it is done
-- with and of a job that the process is about, if its provision message is at hand, if it is pending
-- and of an id that the process has drawn, or if it has the status of the record that the process
-- read or wrote last; in the second and the third case `allowed` lets its status follow that of the
-- record of the job that was read or written last. A process acks only a message that it has at hand,
-- a provision message only if the record that it read or wrote last is that of the message's job and
-- is neither pending nor provisioning, or could not be read; and it sends a provision message only for
-- an id that it has drawn. A store returns the record of the id that it is asked for, and a claim
-- messages with different ids.
pub code_of-Obeys : (p : Process) (m : Mind) → Obeys m (code_of p)
code_of-Obeys (serves r) m = ignoring-Obeys _ m (serving-Obeys r m)
code_of-Obeys (consumes s rounds) m = ignoring-Obeys _ m (consuming-Obeys s rounds m)
code_of-Obeys (reclaims s wakes) m = ignoring-Obeys _ m (reclaiming-Obeys s wakes m)
