-- ===== src/Handler/Events/Serves.antt =====
-- No event that may come fails an assertion, in any run of the handler (src/handler.cpp).
use libbtcnet.Base.{some, ◌≡◌}
use libbtcnet.Handler.State.{Client, Handler}
use libbtcnet.Handler.Sound.{Sound}
use libbtcnet.Handler.Events
use libbtcnet.Handler.Events.{Event, run, holds, Run, run_new}

-- The event is handled.
abbrev Serves : Client → Event → Handler → Type 0
Serves i x h = (g : Handler) × (run i x h ≡ some g)
