-- ===== src/Tests.antt =====
-- Runs of the model, and its theorems at concrete inputs.
mod TokenRuns
mod PkidRuns
mod TopicRuns
mod WsRuns
mod NetRuns
mod ClientRuns
mod SystemRuns
mod RaceRuns
mod AckRuns
mod ProgramRuns
