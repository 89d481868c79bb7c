-- ===== src/Threads.antt =====
-- StoppableThread (collector/lib/StoppableThread.h, StoppableThread.cpp) and SignalServiceClient, which
-- runs on one (collector/lib/SignalServiceClient.h, SignalServiceClient.cpp).
pub mod Stoppable
pub mod Client
pub mod StopRace
mod Examples
