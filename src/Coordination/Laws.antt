-- ===== src/Coordination/Laws.antt =====
-- Who can hold the lock of a configuration directory at one time.
use credimi_runner.Prelude.{
  by_test, ℕ, Bool, true, false, ◌&&◌, ◌≡◌, ◌≢◌, ◌⊎◌, inl, inr, refl, sym, ap, ◌∙◌, Option, none,
  some, arith, ◌==◌, ==_iff,
}
use credimi_runner.Process.{set_at}
use credimi_runner.Coordination.{
  LockFile, Presence, Stage, outside, refused, writing, holding, leaving, removing_own, finished,
  creating, checking, inspecting, reclaiming, Directory, to_stage, created, create_lock, filled,
  write_nonce, write_failed, check_presence, inspect_lock, reclaim_lock, owned_by, owned_through,
  owns, touched, touch_lock, write_presence, is_of, begin_cleanup, drop_presence, read_own,
  remove_own, coordinator_owned, Step, tick, begin, create, write, write_fails, check, inspect,
  reclaim, touch, publish, cleanup, unpublish, read, release, Reachable, initially, after,
}

-- The call has returned the lock and not given it up.
abbrev pub has_lock : Stage → Bool
has_lock holding = true
has_lock leaving = true
has_lock removing_own = true
has_lock outside = false
has_lock refused = false
has_lock writing = false
has_lock finished = false
has_lock (creating n) = false
has_lock (checking n) = false
has_lock (inspecting n) = false
has_lock (reclaiming n) = false

-- It goes on as if the lock were still its own file.
abbrev pub claims : Stage → Bool
claims writing = true
claims holding = true
claims leaving = true
claims removing_own = true
claims outside = false
claims refused = false
claims finished = false
claims (creating n) = false
claims (checking n) = false
claims (inspecting n) = false
claims (reclaiming n) = false

abbrev pub is_reclaiming : Stage → Bool
is_reclaiming (reclaiming n) = true
is_reclaiming writing = false
is_reclaiming holding = false
is_reclaiming leaving = false
is_reclaiming removing_own = false
is_reclaiming outside = false
is_reclaiming refused = false
is_reclaiming finished = false
is_reclaiming (creating n) = false
is_reclaiming (checking n) = false
is_reclaiming (inspecting n) = false

abbrev pub created_by : ℕ → Option LockFile → Bool
created_by i none = false
created_by i (some f) = f.creator == i

-- In every run: a lock that carries a nonce is of a call that has it.
abbrev Attested : Directory → Type 0
Attested d = (i : ℕ) → owned_by i d.lock ≡ true → has_lock (d.stage i) ≡ true

-- A stage that another call is set to, or that this one is.
pub at_stage :
    (P : Stage → Type 0) (i j : ℕ) (s : Stage) (f : ℕ → Stage)
    → (j ≡ i → P s)
    → (j ≢ i → P (f j))
    → P (set_at i s f j)
at_stage P i j s f here other =
    by_test P (j == i) _ _ (λ h. here ((==_iff j i).0 h))
      (λ h. other (λ e. let same = (==_iff j i).1 e in cc))

-- A step of a call that has no lock, and leaves the lock as it is.
waits :
    (d : Directory) (i : ℕ) (s : Stage)
    → has_lock (d.stage i) ≡ false
    → Attested d
    → Attested (to_stage i s d)
waits d i s h v j o =
    at_stage (λ t. has_lock t ≡ true) i j s d.stage
      (λ e. let mine = v j o in let same = ap (λ k. has_lock (d.stage k)) e in cc) (λ e. v j o)

-- A step that keeps or takes away who has written the lock.
keeps :
    (d : Directory) (i : ℕ) (s : Stage) → has_lock s ≡ true → Attested d → Attested (to_stage i s d)
keeps d i s h v j o = at_stage (λ t. has_lock t ≡ true) i j s d.stage (λ e. h) (λ e. v j o)

created-Attested :
    (i n : ℕ) (l : Option LockFile) (d : Directory)
    → l ≡ d.lock
    → has_lock (d.stage i) ≡ false
    → Attested d
    → Attested (created i l n d)
created-Attested i n (some f) d e h v = waits d i _ h v
created-Attested i n none d e h v = λ j o. ground (arith, o)

filled-owner :
    (i j now : ℕ) (l : Option LockFile)
    → owned_by j (filled i now l) ≡ true
    → (j ≡ i) ⊎ (owned_by j l ≡ true)
filled-owner i j now none o = cc
filled-owner i j now (some f) o =
    by_test (λ l. owned_by j l ≡ true → (j ≡ i) ⊎ (owned_by j (some f) ≡ true)) (f.creator == i) _ _
      (λ h k. inl (ground (arith, h, k))) (λ h k. inr k) o

pub touched-owner : (j now : ℕ) (l : Option LockFile) → owned_by j (touched now l) ≡ owned_by j l
touched-owner j now none = refl
touched-owner j now (some f) = refl

Step-Attested : (b : Bool) (d e : Directory) → Step b d e → Attested d → Attested e
unfolding create_lock write_nonce write_failed check_presence inspect_lock reclaim_lock touch_lock
    write_presence begin_cleanup drop_presence read_own remove_own
Step-Attested b _ _ (tick d t h) v = v
Step-Attested b _ _ (begin d i h) v = waits d i _ (ap has_lock h) v
Step-Attested b _ _ (create d i n h) v = created-Attested i n d.lock d refl (ap has_lock h) v
Step-Attested b _ _ (write d i h) v = λ j o.
    at_stage (λ t. has_lock t ≡ true) i j holding d.stage (λ e. refl)
      (λ n. elim (filled-owner i j d.now d.lock o) [ inl e ↦ absurd (n e) | inr k ↦ v j k ])
Step-Attested b _ _ (write_fails d i h) v = λ j o. cc
Step-Attested b _ _ (check d i n h) v = waits d i _ (ap has_lock h) v
Step-Attested b _ _ (inspect d i n h f) v = waits d i _ (ap has_lock h) v
Step-Attested b _ _ (reclaim d i n h) v = λ j o. cc
Step-Attested b _ _ (touch d i h) v =
    by_test Attested (owns i d) _ _ (λ o j k. v j (sym (touched-owner j d.now d.lock) ∙ k)) (λ o. v)
Step-Attested b _ _ (publish d i h) v = v
Step-Attested b _ _ (cleanup d i h) v = keeps d i _ refl v
Step-Attested b _ _ (unpublish d i h) v =
    by_test Attested (owns i d && is_of (d.process i) i d.presence) _ _ (λ o. v) (λ o. v)
Step-Attested b _ _ (read d i h) v =
    by_test (λ s. Attested (to_stage i s d)) (owns i d) _ _ (λ o. keeps d i _ refl v)
      (λ o j k.
        at_stage (λ t. has_lock t ≡ true) i j finished d.stage
          (λ e. let same = ap (λ m. owned_by m d.lock) e in cc) (λ e. v j k))
Step-Attested b _ _ (release d i h) v = λ j o. cc

Reachable-Attested : (b : Bool) (d : Directory) → Reachable b d → Attested d
Reachable-Attested b _ (initially process) = λ i o. cc
Reachable-Attested b _ (after d e r s) = Step-Attested b d e s (Reachable-Attested b d r)

-- A presence carries the PID of the process whose call has its nonce.
abbrev NamedBy : (ℕ → ℕ) → Option Presence → Type 0
NamedBy process none = Unit
NamedBy process (some p) = p.pid ≡ process p.nonce

abbrev IsNamed : Directory → Type 0
IsNamed d = NamedBy d.process d.presence

created-IsNamed :
    (i n : ℕ) (l : Option LockFile) (d : Directory) → IsNamed d → IsNamed (created i l n d)
created-IsNamed i n (some f) d v = v
created-IsNamed i n none d v = v

Step-IsNamed : (b : Bool) (d e : Directory) → Step b d e → IsNamed d → IsNamed e
unfolding create_lock write_nonce write_failed check_presence inspect_lock reclaim_lock touch_lock
    write_presence begin_cleanup drop_presence read_own remove_own
Step-IsNamed b _ _ (tick d t h) v = v
Step-IsNamed b _ _ (begin d i h) v = v
Step-IsNamed b _ _ (create d i n h) v = created-IsNamed i n d.lock d v
Step-IsNamed b _ _ (write d i h) v = v
Step-IsNamed b _ _ (write_fails d i h) v = v
Step-IsNamed b _ _ (check d i n h) v = v
Step-IsNamed b _ _ (inspect d i n h f) v = v
Step-IsNamed b _ _ (reclaim d i n h) v = v
Step-IsNamed b _ _ (touch d i h) v = by_test IsNamed (owns i d) _ _ (λ o. v) (λ o. v)
Step-IsNamed b _ _ (publish d i h) v = refl
Step-IsNamed b _ _ (cleanup d i h) v = v
Step-IsNamed b _ _ (unpublish d i h) v =
    by_test IsNamed (owns i d && is_of (d.process i) i d.presence) _ _ (λ o. tt) (λ o. v)
Step-IsNamed b _ _ (read d i h) v = v
Step-IsNamed b _ _ (release d i h) v = v

Reachable-IsNamed : (b : Bool) (d : Directory) → Reachable b d → IsNamed d
Reachable-IsNamed b _ (initially process) = tt
Reachable-IsNamed b _ (after d e r s) = Step-IsNamed b d e s (Reachable-IsNamed b d r)

-- One of the calls of the process with this PID has the lock, and the lock carries its nonce.
abbrev pub HoldsFor : ℕ → Directory → Type 0
HoldsFor pid d = (i : ℕ) × (d.process i ≡ pid) × (has_lock (d.stage i) ≡ true) × (owns i d ≡ true)

-- Whatever happens to the lock, stale locks being reclaimed by several at once included, and
-- however many calls a process makes: when `CoordinatorOwned` holds for a process, which reads the
-- presence in one state and the lock in another of the same processes, then, in the state in which
-- it reads the lock, a call of `StartPresence` of a process with its PID has acquired the lock and
-- has not given it up, and the lock carries the nonce of that call.
pub coordinator_owned-holds :
    (b : Bool) (d e : Directory) (pid : ℕ)
    → Reachable b d
    → Reachable b e
    → d.process ≡ e.process
    → coordinator_owned pid d e ≡ true
    → HoldsFor pid e
unfolding coordinator_owned
coordinator_owned-holds b d e pid r q same h = found d.presence (Reachable-IsNamed b d r) h
  where
    found :
        (p : Option Presence)
        → NamedBy d.process p
        → owned_through pid p e.lock ≡ true
        → HoldsFor pid e
    found none n o = cc
    found (some p) n o =
        let asked : p.pid ≡ pid = ground (arith, o) in
        let owned : owned_by p.nonce e.lock ≡ true = ground (arith, o) in
        (
          p.nonce,
          sym (n ∙ ap (λ f. f p.nonce) same) ∙ asked,
          Reachable-Attested b e q p.nonce owned,
          owned,
        )
