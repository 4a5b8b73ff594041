-- ===== src/Tests/Busy.antt =====
-- A cluster that other clients write to: before each call, and behind an unlock, the next of their
-- writes is made, if this client does not hold the mutex of its key; else it waits.
use hambone.Base.{
  String, Bool, true, false, ◌||◌, Bool-cases, ◌≡◌, refl, ap, ◌∙◌, inl, inr, Option, none, some,
  List, [], ◌∷◌, ◌++◌, arith, ◌==◌, String-discrete, if◌then◌else◌, starts_with,
}
use hambone.Go.{ok, Unit₀}
use hambone.Etcd.Client.{Etcd}
use hambone.Etcd.Lawful.{is_some, entry}
use hambone.Etcd.Shared.{History, latest, lock_name, IsShared}

pub record Write : Type 0 where
  pub key : String
  pub value : Option String

pub record Busy : Type 0 where
  pub history : String → History
  pub held : List String
  pub others : List Write

abbrev pub has : String → List String → Bool
has n [] = false
has n (m ∷ ms) = n == m || has n ms

abbrev pub write : Write → (String → History) → String → History
write w h j = if j == w.key then w.value ∷ h j else h j

-- The next write of another client.
abbrev pub next : List Write → Busy → Busy
next [] s = s
next (w ∷ ws) s =
    if has (lock_name w.key) s.held
    then s
    else record s { history = write w s.history; others = ws }

abbrev pub turn : Busy → Busy
turn s = next s.others s

abbrev lose : String → List String → List String
lose n [] = []
lose n (m ∷ ms) = let rest = lose n ms in if n == m then rest else m ∷ rest

abbrev with_prefix : String → (String → History) → String → History
with_prefix p h j = if starts_with j p then none ∷ h j else h j

abbrev pub busy : Etcd Busy
busy = record {
  Client = Unit₀;
  Context = Unit₀;
  Session = Unit₀;
  Mutex = String;
  new_client = λ endpoints s. (ok tt, turn s);
  close_client = λ client s. (ok tt, turn s);
  get = λ client key s. (ok (entry key (latest ((turn s).history key))), turn s);
  get_prefix = λ client prefix s. (ok [], turn s);
  put = λ client key value s. (
    ok tt,
    record (turn s) { history = write (record { key = key; value = some value }) (turn s).history },
  );
  delete_prefix =
      λ client prefix s. (ok tt, record (turn s) { history = with_prefix prefix (turn s).history });
  key_exists = λ client key s. (ok (is_some (latest ((turn s).history key))), turn s);
  with_timeout = λ s. (ok tt, turn s);
  cancel = λ context s. (ok tt, turn s);
  new_session = λ client context s. (ok tt, turn s);
  close_session = λ session s. (ok tt, turn s);
  new_mutex = λ session name. name;
  lock = λ mutex s. (ok tt, record (turn s) { held = mutex ∷ (turn s).held });
  unlock = λ mutex s. (ok tt, turn (record s { held = lose mutex s.held }));
}

next-held : (ws : List Write) (s : Busy) → (next ws s).held ≡ s.held
next-held [] s = refl
next-held (w ∷ ws) s = ground arith

pub next-history :
    (k : String) (ws : List Write) (s : Busy)
    → has (lock_name k) s.held ≡ true
    → (next ws s).history k ≡ s.history k
next-history k [] s h = refl
next-history k (w ∷ ws) s h = elim (String-discrete k w.key) [
  | yes e ↦ ground arith
  | no n ↦ ground arith
]

later_write :
    (k : String) (w : Write) (h : String → History) → (more : History) × (write w h k ≡ more ++ h k)
later_write k w h = elim (String-discrete k w.key) [
  | yes e ↦ (w.value ∷ [], ground arith)
  | no n ↦ ([], ground arith)
]

next-later :
    (k : String) (ws : List Write) (s : Busy)
    → (more : History) × ((next ws s).history k ≡ more ++ s.history k)
next-later k [] s = ([], refl)
next-later k (w ∷ ws) s = elim (Bool-cases (has (lock_name w.key) s.held)) [
  | inl e ↦ ([], ground arith)
  | inr e ↦ ((later_write k w s.history).0, ground (arith, (later_write k w s.history).1))
]

pub busy_holds :
    (k : String) (s : Busy)
    → has (lock_name k) s.held ≡ true
    → has (lock_name k) (turn s).held ≡ true
busy_holds k s h = rw (next-held) h

pub ok-same : {A : Type 0} (a b : A) → ok a ≡ ok b → b ≡ a
ok-same a b h = cc

pub turn-later :
    (k : String) (s : Busy) → (more : History) × ((turn s).history k ≡ more ++ s.history k)
turn-later k s = next-later k s.others s

pub lock-has : (n : String) (ms : List String) → has n (n ∷ ms) ≡ true
lock-has n ms = ground arith

pub write-own :
    (k i v : String) (s : Busy)
    → has (lock_name k) s.held ≡ true
    → write (record { key = i; value = some v }) (turn s).history k
      ≡ (if k == i then some v ∷ s.history k else s.history k)
write-own k i v s h = ground (arith, next-history k s.others s h)

pub delete-own :
    (k p : String) (s : Busy)
    → has (lock_name k) s.held ≡ true
    → with_prefix p (turn s).history k
      ≡ (if starts_with k p then none ∷ s.history k else s.history k)
delete-own k p s h = ground (arith, next-history k s.others s h)

-- That cluster keeps to what the adapters rely on.
abbrev pub shared_busy : IsShared busy
shared_busy = record {
  history = λ s. s.history;
  holds = λ s n. has n s.held;
  lock_holds = λ x n s h. lock-has n (turn s).held;
  key_exists_holds = λ c i k s h. busy_holds k s h;
  key_exists_history = λ c i k s h. next-history k s.others s h;
  get_holds = λ c i k s h. busy_holds k s h;
  get_history = λ c i k s h. next-history k s.others s h;
  get_latest =
      λ c k s h e. ok-same _ _ e ∙ ap (λ v. entry k (latest v)) (next-history k s.others s h);
  put_holds = λ c i v k s h. busy_holds k s h;
  put_history = λ c i v k s h e. write-own k i v s h;
  delete_prefix_history = λ c p k s h e. delete-own k p s h;
  close_client_later = λ c k s. turn-later k s;
  cancel_later = λ x k s. turn-later k s;
  close_session_later = λ x k s. turn-later k s;
  unlock_later = λ m k s. turn-later k (record s { held = lose m s.held });
}
