-- ===== src/Vessel/Agent.antt =====
-- The network agent of vessel/agent.go: pending endpoint updates, their match against the docker
-- daemon's containers, and the notifier that wakes the polling loop.
pub mod Pollers
pub mod MatchEvent
pub mod Notifier
pub mod Loop
