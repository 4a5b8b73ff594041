-- ===== src/Tests/Flaky.antt =====
-- The small cluster, where a Put can fail: one of the value "late" fails once it has taken effect,
-- and one of the value "refused" fails before.
use hambone.Base.{String, Bool-cases, ◌≡◌, ◌∙◌, inl, inr, arith, ◌==◌, if◌then◌else◌}
use hambone.Go.{Result, ok, err, plain, Unit₀}
use hambone.Etcd.Client.{Etcd}
use hambone.Etcd.Lawful.{IsLawful, find}
use hambone.Etcd.Atomic.{Writes}
use hambone.Tests.Cluster.{Store, cluster, lawful_cluster, find-put, find-delete}

abbrev flaky_put : String → String → Store → Result Unit₀ × Store
flaky_put k v s =
    if v == "refused"
    then (err (plain "context deadline exceeded"), s)
    else if v == "late"
    then (err (plain "context deadline exceeded"), (cluster.put tt k v s).1)
    else cluster.put tt k v s

abbrev pub flaky : Etcd Store
flaky = record cluster { put = λ client k v s. flaky_put k v s }

pub put_ok :
    (k v j : String) (s : Store)
    → (flaky_put k v s).0 ≡ ok tt
    → find j (flaky_put k v s).1 ≡ find j (cluster.put tt k v s).1
put_ok k v j s h = ground arith

abbrev pub lawful_flaky : IsLawful flaky
lawful_flaky = record {
  value = lawful_cluster.value;
  get_value = lawful_cluster.get_value;
  get_ok = λ c k s h. lawful_cluster.get_ok c k s h;
  get_prefix_value = lawful_cluster.get_prefix_value;
  get_prefix_ok = λ c p j s h. lawful_cluster.get_prefix_ok c p j s h;
  key_exists_value = lawful_cluster.key_exists_value;
  key_exists_ok = λ c k s h. lawful_cluster.key_exists_ok c k s h;
  put_ok = λ c k v j s h. put_ok k v j s h ∙ find-put k v j s;
  delete_prefix_ok = lawful_cluster.delete_prefix_ok;
  new_client_value = lawful_cluster.new_client_value;
  close_client_value = lawful_cluster.close_client_value;
  with_timeout_value = lawful_cluster.with_timeout_value;
  cancel_value = lawful_cluster.cancel_value;
  new_session_value = lawful_cluster.new_session_value;
  close_session_value = lawful_cluster.close_session_value;
  lock_value = lawful_cluster.lock_value;
  unlock_value = lawful_cluster.unlock_value;
}

pub writing_flaky : Writes flaky lawful_flaky
writing_flaky = record {
  put_ends = λ c k v s. elim (Bool-cases (v == "refused")) [
    | inl e ↦ inl λ j storage. ground arith
    | inr e ↦ inr λ j storage. ground (arith, find-put k v j s)
  ];
  delete_ends = λ c p s. inr λ j storage. find-delete p j s;
}
