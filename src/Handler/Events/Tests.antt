-- ===== src/Handler/Events/Tests.antt =====
-- A run of the handler by events that may come.
use libbtcnet.Handler.State.{Handler}
use libbtcnet.Handler.Events
use libbtcnet.Handler.Events.{Event}
