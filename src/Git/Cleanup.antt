-- ===== src/Git/Cleanup.antt =====
-- `runCleanupFuncs` of the git adapter, which is the one of the etcd adapter but for its error.
use hambone.Base.{String, List}
use hambone.Go.{Error, Code, status, Action, Unit₀}
use hambone.State.Cleanup as Cleanup
use hambone.State.Cleanup.{Cleanup}

-- It ends in `status.Errorf(codes.Unknown, …)` here.
abbrev pub cleanup_error : String → Error
cleanup_error text = status Code.unknown text

abbrev pub run_cleanup_funcs : {S : Type 0} → List (Cleanup S) → Action S Unit₀
run_cleanup_funcs funcs = Cleanup.run_cleanup_funcs cleanup_error funcs
