-- ===== src/Git/Conflict.antt =====
-- What `Init` of the git updater and of the git deleter makes of an OldInstance.
use hambone.Base.{String, false, ◌≡◌, ◌≢◌, some, arith, trim_space}
use hambone.Go.{Result, ok, err, Unit₀, ◌>>◌}
use hambone.Pb.{Instance, OldInstance}
use hambone.State.{old_instance_differs_error}
use hambone.Sys.{Os}
use hambone.Git.Commands.{git_pull, ensure_clean_file}
use hambone.Git.Updater.{WriterFields, compare_old, prepare}

module _ {O : Type 0} (os : Os O) where
  -- The file, as it is read after the test that it exists.
  abbrev pub read_at : String → O → Result String × O
  read_at file o = os.read_file file (os.not_exist file o).1

  -- The state in which `git pull` and the tests for uncommitted changes leave the machine.
  abbrev pub clean : WriterFields → O → Result Unit₀ × O
  clean fields = git_pull os >> ensure_clean_file os fields.instance_dir

  compare_old-differs :
      (file contents : String) (old : OldInstance) (o : O)
      → (os.not_exist file o).0 ≡ ok false
      → (read_at file o).0 ≡ ok contents
      → trim_space old.kustomization_yaml ≢ trim_space contents
      → compare_old os file (some old) o ≡ (err old_instance_differs_error, (read_at file o).1)
  unfolding compare_old
  compare_old-differs file contents old o present read differs = ground arith

  -- If the repository has been pulled and found clean, and the file of the Instance exists and can
  -- be read: an apply whose OldInstance differs from the file, white space at both ends aside, is
  -- refused by OldInstanceDiffersError right after the file was read, and nothing is written.
  prepare-stale :
      (fields : WriterFields) (instance : Instance) (old : OldInstance) (contents : String) (o : O)
      → instance.old_instance ≡ some old
      → (clean fields o).0 ≡ ok tt
      → (os.not_exist fields.instance_file (clean fields o).1).0 ≡ ok false
      → (read_at fields.instance_file (clean fields o).1).0 ≡ ok contents
      → trim_space old.kustomization_yaml ≢ trim_space contents
      → prepare os fields instance o
        ≡ (err old_instance_differs_error, (read_at fields.instance_file (clean fields o).1).1)
  prepare-stale fields instance old contents o e cleaned present read differs =
      ground (arith, compare_old-differs fields.instance_file contents old (clean fields o).1)
