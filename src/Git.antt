-- ===== src/Git.antt =====
-- The git adapter, pkg/state/git/git.go.
pub mod Cleanup
pub mod Commands
pub mod Loader
pub mod Getter
pub mod Updater
pub mod Deleter
pub mod Engine
pub mod Outcome
pub mod Apply
pub mod Contract
pub mod Loaded
pub mod WrittenFiles
pub mod Repository
pub mod Bare
pub mod Released
pub mod Conflict
pub mod Undone
