-- ===== src/Runtime/Supervisor/Loop.antt =====
-- The loop of the supervisor: what it counts, that it halts after failures, and that the books stay in step.
use iron_spyder.Float.{Float}
use iron_spyder.Runtime.Supervisor.{Supervisor}
