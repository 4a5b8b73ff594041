-- ===== src/Main/Start.antt =====
-- How a start of the program ends.
use hambone.Base.{
  String, String-discrete, split, ◌≡◌, refl, ap, ◌∙◌, some, List, [], ◌∷◌, arith, inl, inr, ◌≢◌,
}
use hambone.Go.{Error, ok, panicked, Action, Unit₀, Result-cases, error_text}
use hambone.Sys.{Os}
use hambone.State.Receiver.{World}
use hambone.Etcd.Client.{Etcd}
use hambone.Etcd.Engine as EtcdEngine
use hambone.Git.Engine as GitEngine
use hambone.Git.Engine.{Settings, init_repository}
use hambone.Git.Getter.{Vars}
use hambone.Git.Commands.{run_command}
use hambone.Instances.Requests.{Server}
use hambone.Main.{
  Flags, StateStore, git, state_store, start, process, exited, must, new_instances_server,
  run_store, main,
}
use hambone.Etcd.Server.{etcd_server}

module _ {S O : Type 0} (E : Etcd S) (os : Os O) where
  -- The last step of `Init` of the git adapter is the checkout of the branch in its settings.
  checkout-refused :
      (settings : Settings) (e : Error) (o : O)
      → ((o : O)
          → (os.combined_output "git" ("checkout" ∷ settings.branch ∷ []) o).0.error ≡ some e)
      → (init_repository E os settings o).0 ≢ ok tt
  unfolding init_repository run_command
  checkout-refused settings e o refused h = grind (arith, refused)

module _ {S O L : Type 0} (E : Etcd S) (os : Os O) (listen : String → Action O L)
    (serve : (V : Type 0) → L → Server (World S O V) → Action (World S O V) Unit₀) where
  must_stops :
      (flags : Flags) (settings : Settings) (w : World S O Vars)
      → (GitEngine.init E os settings w).0 ≢ ok tt
      → (p : String) × ((start E os listen serve flags (GitEngine.engine E os settings) w).0
          ≡ panicked p)
  unfolding start
  must_stops flags settings w bad = elim (Result-cases (GitEngine.init E os settings w).0) [
    | inl (a, e) ↦ absurd (bad e)
    | inr (inl (x, e)) ↦ (error_text x, ground arith)
    | inr (inr (p, e)) ↦ (p, ground arith)
  ]

  -- The settings that `main` gives to the git adapter.
  abbrev git_settings : Flags → Settings
  git_settings flags = record {
    working_dir = flags.repo_dir;
    endpoints_string = flags.etcd_endpoints;
    etcd_locks_git_key = flags.etcd_locks_git_key;
    branch = "";
  }

  init-refused :
      (settings : Settings) (w : World S O Vars)
      → (init_repository E os settings w.os).0 ≢ ok tt
      → (GitEngine.init E os settings w).0 ≢ ok tt
  unfolding GitEngine.init
  init-refused settings w bad h = bad (ground arith)

  chosen :
      (flags : Flags)
      → flags.state_plugin ≡ "git"
      → state_store flags ≡ ok (git (git_settings flags))
  unfolding state_store
  chosen flags e = ground arith

  -- With the git adapter the program does not get to serve a request where git refuses to check out
  -- a branch without a name: `main` ends in a panic, whatever its other flags are.
  pub main-git_panics :
      (flags : Flags) (e : Error) (outside : S × O)
      → flags.state_plugin ≡ "git"
      → ((o : O) → (os.combined_output "git" ("checkout" ∷ "" ∷ []) o).0.error ≡ some e)
      → (p : String) × ((main E os listen serve flags outside).0 ≡ panicked p)
  unfolding main
  main-git_panics flags e (s, o) git_chosen refused =
      let settings = git_settings flags in
      let w : World S O Vars =
        process E os listen serve (record { endpoints = []; etcd_locks_git_key = "" }) (s, o) in
      let bad = init-refused settings w (checkout-refused E os settings e o refused) in
      let (p, stopped) = must_stops flags settings w bad in
      (
        p,
        ap (λ r. (run_store E os listen serve flags r (s, o)).0) (chosen flags git_chosen)
            ∙ stopped,
      )

  abbrev etcd_settings : Flags → EtcdEngine.Settings
  etcd_settings flags = record {
    working_dir = flags.repo_dir;
    endpoints_string = flags.etcd_endpoints;
  }

  chosen_etcd :
      (flags : Flags)
      → flags.state_plugin ≡ "etcd"
      → state_store flags ≡ ok (StateStore.etcd (etcd_settings flags))
  unfolding state_store String-discrete
  chosen_etcd flags e = rw e refl

  -- The state of the program when it is entered, and when it serves.
  abbrev at : List String → S → O → World S O (List String)
  at endpoints s o = record { etcd = s; os = o; vars = endpoints }

  started :
      (flags : Flags) (s : S) (o o' o'' : O) (listener : L)
      → os.chdir flags.repo_dir o ≡ (ok tt, o')
      → listen flags.listen_address o' ≡ (ok listener, o'')
      → start E os listen serve flags (EtcdEngine.engine E os (etcd_settings flags)) (at [] s o)
        ≡ must
            (serve
              (List String)
              listener
              (new_instances_server flags (EtcdEngine.engine E os (etcd_settings flags))))
            (at (split b',' flags.etcd_endpoints) s o'')
  unfolding start EtcdEngine.init EtcdEngine.change_dir
  started flags s o o' o'' listener entered listening = ground arith

  -- With the etcd adapter, if the working directory can be entered and the address can be listened
  -- on, `main` serves requests with the server that works on this store with the directories and
  -- the tools of its flags, and with the endpoints between the commas of `etcd_endpoints`.
  main-etcd_serves :
      (flags : Flags) (s : S) (o o' o'' : O) (listener : L)
      → flags.state_plugin ≡ "etcd"
      → os.chdir flags.repo_dir o ≡ (ok tt, o')
      → listen flags.listen_address o' ≡ (ok listener, o'')
      → main E os listen serve flags (s, o)
        ≡ exited E os listen serve (
            must
              (serve (List String) listener (
                etcd_server E os
                  (record { working_dir = flags.repo_dir; endpoints_string = flags.etcd_endpoints })
                  flags.instances_dir
                  flags.templates_dir
                  flags.enable_kustomize_build
                  flags.enable_kubectl))
              (record { etcd = s; os = o''; vars = split b',' flags.etcd_endpoints }))
  unfolding main
  main-etcd_serves flags s o o' o'' listener etcd_chosen entered listening =
      ap (λ r. run_store E os listen serve flags r (s, o)) (chosen_etcd flags etcd_chosen)
      ∙ ap (exited E os listen serve) (started flags s o o' o'' listener entered listening)
