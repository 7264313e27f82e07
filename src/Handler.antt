-- ===== src/Handler.antt =====
-- `CConnectionHandlerInt`: src/handler.h and src/handler.cpp. The calls of the application's
-- interface (include/libbtcnet/handler.h) are recorded in order, and the application's answers are
-- a parameter. What the application calls back from inside such a call is taken to come after it:
-- all but `Bind` only schedules an event. `none` is a failed assertion. The counters do not
-- overflow.
pub mod State
pub mod Ops
pub mod Tidy
pub mod Bound
pub mod Reports
pub mod Shutdown
pub mod Loop
pub mod Calls
pub mod Lost
pub mod Lives
pub mod Requests
pub mod Steps
pub mod Resolves
pub mod Accepts
pub mod Binds
pub mod Starts
pub mod Lookups
pub mod Outgoing
pub mod Frame
pub mod Run
pub mod Reach
pub mod Limit
pub mod Sound
pub mod Events
pub mod Told
pub mod Samples
pub mod Tests
