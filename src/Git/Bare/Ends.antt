-- ===== src/Git/Bare/Ends.antt =====
-- Whole requests over the git adapter, however they end, to a server that runs neither kustomize
-- nor kubectl.
use hambone.Base.{
  String, Bool, ◌≡◌, ◌≢◌, ◌⊎◌, inl, inr, sym, ap, subst, ◌∙◌, arith, Option-cases, none,
}
use hambone.Go.{Result, ok, Action, Unit₀, ◌>>◌, Result-cases, err, panicked, panic_over}
use hambone.Pb.{Instance}
use hambone.Sys.{Os}
use hambone.State.Receiver.{World, machine, run_and_forget}
use hambone.Instances.Statuses.{ItemStatuses}
use hambone.Instances.Requests.{
  Server, apply, apply_call, names_equate, validate, refresh, after_commit,
}
use hambone.Instances.Requests.Apply.{start}
use hambone.Etcd.Client.{Etcd}
use hambone.Git.Getter.{Vars}
use hambone.Git.Updater as Updater
use hambone.Git.Updater.{WriterFields, WriterCall, prepare, lock_if_wanted}
use hambone.Git.Engine.{Settings}
use hambone.Git.Bare.{
  behind, KeepsRest, lock_if_wanted-keeps, bare_server, prepared, committed, commit-os,
  updater_init-ok, updater_init-registers_none, cleanup-nothing,
}

-- The answer of the commit, or a panic of the cleanup.
abbrev pub AnswersAs : Result Unit₀ → Result Unit₀ → Type 0
AnswersAs tried r = (r ≡ tried) ⊎ ((p : String) × (r ≡ panicked p))

panic_over-AnswersAs :
    {x z r : Result Unit₀} (y : Result Unit₀) → r ≡ panic_over x y → x ≡ z → AnswersAs z r
panic_over-AnswersAs (ok a) e f = inl (e ∙ f)
panic_over-AnswersAs (err x) e f = inl (e ∙ f)
panic_over-AnswersAs (panicked p) e f = inr (p, e)

module _ {S O : Type 0} (c : WriterCall S O) where
  -- A method that has done a step on the machine, and changed nothing else; or has not got there.
  abbrev Ended : (Result Unit₀ × O) → Result Unit₀ × WriterCall S O → Type 0
  Ended done (r, d) =
      ((r ≢ ok tt) × (d.world.os ≡ c.world.os))
      ⊎ ((r ≡ done.0)
          × (d.world.os ≡ done.1)
          × (d.shared ≡ c.shared)
          × (d.self.fields ≡ c.self.fields))

  behind-Ended :
      (lock : Action (WriterCall S O) Unit₀) (step : WriterFields → Instance → Action O Unit₀)
      → KeepsRest c (lock c).1
      → Ended (step c.self.fields c.shared c.world.os) (behind lock step c)
  behind-Ended lock step keeps = elim (Result-cases (lock c).0) [
    | inl (a, e) ↦ inr (ground arith, ground arith, ground arith, ground arith)
    | inr (inl (x, e)) ↦ inl (λ h. ground arith, ground arith)
    | inr (inr (p, e)) ↦ inl (λ h. ground arith, ground arith)
  ]

module _ {S O : Type 0} (E : Etcd S) (os : Os O) (c : WriterCall S O) where
  updater_init-Ended : Ended c (prepare os c.self.fields c.shared c.world.os) (Updater.init E os c)
  unfolding Updater.init
  updater_init-Ended =
      behind-Ended c
        (lock_if_wanted E "(*gitUpdater).Init.func1" "(*gitUpdater).Init.func2"
          "(*gitUpdater).Init.func3")
        (prepare os) (lock_if_wanted-keeps E _ _ _ c)

module _ {S O : Type 0} (E : Etcd S) (os : Os O) (settings : Settings)
    (unmarshal : String → Result ItemStatuses) (instances_dir templates_dir : String)
    (instance : Instance) where
  abbrev server : Server (World S O Vars)
  server = bare_server E os settings unmarshal instances_dir templates_dir

  -- Where a request can end: before `Init` has done anything on the machine, in `Init`, or behind
  -- the commit.
  abbrev EndsAt : (Result Unit₀ × O) → (O → Result Unit₀ × O) → O → Result Unit₀ → O → Type 0
  EndsAt ready commit o r last =
      ((r ≢ ok tt) × (last ≡ o))
      ⊎ (((r ≢ ok tt) × (last ≡ ready.1))
          ⊎ ((ready.0 ≡ ok tt) × AnswersAs (commit ready.1).0 r × (last ≡ (commit ready.1).1)))

  apply_call-init :
      (skip_commit : Bool) (c : WriterCall S O)
      → (Updater.init E os c).0 ≢ ok tt
      → let done = apply_call (machine os) unmarshal server skip_commit c in
        (done.0 ≢ ok tt) × (done.1.world.os ≡ (Updater.init E os c).1.world.os)
  unfolding apply_call run_and_forget
  apply_call-init skip_commit c failed = elim (Result-cases (Updater.init E os c).0) [
    | inl (a, e) ↦ absurd (failed e)
    | inr (inl (x, e)) ↦ (λ h. ground arith, ground arith)
    | inr (inr (p, e)) ↦ (λ h. ground arith, ground arith)
  ]

  -- Before it cleans up.
  abbrev finished : Bool → WriterCall S O → WriterCall S O
  finished skip_commit c =
      ((Updater.commit E os skip_commit >> after_commit (machine os) unmarshal server)
        (Updater.init E os c).1).1

  finished-registered :
      (skip_commit : Bool) (c : WriterCall S O)
      → (finished skip_commit c).self.cleanup_funcs ≡ (Updater.init E os c).1.self.cleanup_funcs
  unfolding Updater.commit refresh
  finished-registered skip_commit c = ground arith

  apply_call-commit :
      (skip_commit : Bool) (c : WriterCall S O)
      → (Updater.init E os c).0 ≡ ok tt
      → let done = apply_call (machine os) unmarshal server skip_commit c in
        let tried = Updater.commit E os skip_commit (Updater.init E os c).1 in
        (done.0 ≡ panic_over tried.0 (Updater.run_cleanup_funcs (finished skip_commit c)).0)
        × (done.1.world.os ≡ tried.1.world.os)
  unfolding apply_call validate refresh run_and_forget
  apply_call-commit skip_commit c ready =
      elim (Result-cases (Updater.commit E os skip_commit (Updater.init E os c).1).0) [
        | inl (a, e) ↦ (ground arith, ground arith)
        | inr (inl (x, e)) ↦ (ground arith, ground arith)
        | inr (inr (p, e)) ↦ (ground arith, ground arith)
      ]

  abbrev ready_for : World S O Vars → Result Unit₀ × O
  ready_for w = prepared E os settings unmarshal instances_dir templates_dir instance w.os

  abbrev commit_for : Bool → O → Result Unit₀ × O
  commit_for skip_commit =
      committed E os settings unmarshal instances_dir templates_dir skip_commit instance

  call-ends :
      (skip_commit : Bool) (w : World S O Vars)
      → let done =
          apply_call
            (machine os)
            unmarshal
            server
            skip_commit
            (start (machine os) unmarshal server instance w) in
        EndsAt (ready_for w) (commit_for skip_commit) w.os done.0 done.1.world.os
  call-ends skip_commit w =
      let c = start (machine os) unmarshal server instance w in
      elim (updater_init-Ended E os c) [
        | inl (failed, same) ↦
            let (r, o) = apply_call-init skip_commit c failed in inl (r, o ∙ same)
        | inr (r, on, of_, at) ↦ elim (Result-cases (ready_for w).0) [
          | inl (a, e) ↦
              let (s, o) = apply_call-commit skip_commit c (r ∙ e) in
              let (t, p) =
                commit-os E os settings unmarshal instances_dir templates_dir skip_commit instance
                  (Updater.init E os c).1 (ready_for w).1 on of_ at in
              let answer =
                panic_over-AnswersAs (Updater.run_cleanup_funcs (finished skip_commit c)).0 s t in
              inr (inr (e, answer, o ∙ p))
          | inr (inl (x, e)) ↦
              let (s, o) = apply_call-init skip_commit c (λ h. ground (arith, h, r, e)) in
              inr (inl (s, o ∙ on))
          | inr (inr (p, e)) ↦
              let (s, o) = apply_call-init skip_commit c (λ h. ground (arith, h, r, e)) in
              inr (inl (s, o ∙ on))
        ]
      ]

  apply-called :
      (skip_commit : Bool) (w : World S O Vars)
      → names_equate instance ≡ none
      → let done =
          apply_call
            (machine os)
            unmarshal
            server
            skip_commit
            (start (machine os) unmarshal server instance w) in
        (done.0, done.1.shared, done.1.world)
        ≡ apply (machine os) unmarshal server skip_commit instance w
  unfolding apply
  apply-called skip_commit w e = ground arith

  -- However an `Apply` ends, it has stopped before `Init` did anything, or in `Init`, or it has
  -- committed, and ends as the commit did or by a panic of the cleanup.
  pub apply-ends :
      (skip_commit : Bool) (w : World S O Vars)
      → let done = apply (machine os) unmarshal server skip_commit instance w in
        EndsAt (ready_for w) (commit_for skip_commit) w.os done.0 done.2.os
  unfolding apply
  apply-ends skip_commit w = elim (Option-cases (names_equate instance)) [
    | inl e ↦
        subst
          (λ (p : Result Unit₀ × Instance × World S O Vars).
            EndsAt (ready_for w) (commit_for skip_commit) w.os p.0 p.2.os)
          (apply-called skip_commit w e) (call-ends skip_commit w)
    | inr (x, e) ↦ inl (λ h. ground arith, ground arith)
  ]

  updater_init-unlocked :
      (c : WriterCall S O)
      → c.world.vars.etcd_locks_git_key ≡ ""
      → (prepare os c.self.fields c.shared c.world.os).0 ≡ ok tt
      → (Updater.init E os c).0 ≡ ok tt
  unfolding Updater.init lock_if_wanted
  updater_init-unlocked c unlocked ready = ground arith

  -- Without a lock to take, an `Apply` whose `Init` returns nil ends as its commit does.
  pub apply-commits :
      (skip_commit : Bool) (w : World S O Vars)
      → names_equate instance ≡ none
      → w.vars.etcd_locks_git_key ≡ ""
      → (ready_for w).0 ≡ ok tt
      → let done = apply (machine os) unmarshal server skip_commit instance w in
        let tried = commit_for skip_commit (ready_for w).1 in
        (done.0 ≡ tried.0) × (done.2.os ≡ tried.1)
  apply-commits skip_commit w equate unlocked ready =
      let c = start (machine os) unmarshal server instance w in
      let init_ok = updater_init-unlocked c unlocked ready in
      let (_, on, of_, at) = updater_init-ok E os c init_ok in
      let (s, o) = apply_call-commit skip_commit c init_ok in
      let (t, p) =
        commit-os E os settings unmarshal instances_dir templates_dir skip_commit instance
          (Updater.init E os c).1 (ready_for w).1 on of_ at in
      let called = apply-called skip_commit w equate in
      let nothing =
        cleanup-nothing E os (finished skip_commit c)
          (finished-registered skip_commit c ∙ updater_init-registers_none E os c unlocked) in
      let same = s ∙ ap (panic_over _) nothing in
      (
        ap (λ (x : Result Unit₀ × Instance × World S O Vars). x.0) (sym called) ∙ (same ∙ t),
        ap (λ (x : Result Unit₀ × Instance × World S O Vars). x.2.os) (sym called) ∙ (o ∙ p),
      )
