-- ===== src/Tests.antt =====
-- A small cluster, a small machine, and runs of the program on them.
mod Cluster
mod Busy
mod SharedRuns
mod Repo
mod RepoLaws
mod RepoRemote
mod RepoRuns
mod RepoEdges
mod RepoAgain
mod MainRuns
mod AtomicRuns
mod Flaky
mod WebRuns
mod ClientRuns
mod Machine
mod StateRuns
mod EtcdRuns
mod Setup
mod ServerRuns
mod WholeRuns
mod GitRuns
mod ToolRuns
