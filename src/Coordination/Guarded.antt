-- ===== src/Coordination/Guarded.antt =====
-- Who can hold the lock of a configuration directory while no lock is found stale.
use credimi_runner.Prelude.{
  by_test, ℕ, suc, true, false, ◌&&◌, ◌≡◌, inl, inr, refl, sym, ap, ◌∙◌, Option, none, some, arith,
  ltb, ◌==◌,
}
use credimi_runner.Coordination.{
  LockFile, Stage, outside, refused, writing, holding, leaving, removing_own, finished, creating,
  checking, inspecting, reclaiming, Directory, to_stage, next_attempt, created, create_lock, filled,
  write_nonce, write_failed, is_active, check_presence, is_fresh, inspected, inspect_lock,
  reclaim_lock, owned_by, owns, touched, touch_lock, write_presence, is_of, begin_cleanup,
  drop_presence, read_own, remove_own, Step, tick, begin, create, write, write_fails, check,
  inspect, reclaim, touch, publish, cleanup, unpublish, read, release, Reachable, initially, after,
}
use credimi_runner.Coordination.Laws.{
  has_lock, claims, is_reclaiming, created_by, at_stage, touched-owner,
}

-- While no lock is found stale: whoever claims the lock has created the file that is there, nobody
-- is about to reclaim it, and whoever has the lock has written it.
pub record IsGuarded (d : Directory) : Type 0 where
  pub backed : (i : ℕ) → claims (d.stage i) ≡ true → created_by i d.lock ≡ true
  pub settled : (i : ℕ) → is_reclaiming (d.stage i) ≡ false
  pub signed : (i : ℕ) → has_lock (d.stage i) ≡ true → owned_by i d.lock ≡ true

-- A step to a stage without a claim, that leaves the lock.
quits :
    (d : Directory) (i : ℕ) (s : Stage)
    → claims s ≡ false
    → has_lock s ≡ false
    → is_reclaiming s ≡ false
    → IsGuarded d
    → IsGuarded (to_stage i s d)
quits d i s c l r v = record {
  backed = λ j.
      at_stage (λ t. claims t ≡ true → created_by j d.lock ≡ true) i j s d.stage (λ e k. cc)
        (λ e. v.backed j);
  settled = λ j. at_stage (λ t. is_reclaiming t ≡ false) i j s d.stage (λ e. r) (λ e. v.settled j);
  signed = λ j.
      at_stage (λ t. has_lock t ≡ true → owned_by j d.lock ≡ true) i j s d.stage (λ e k. cc)
        (λ e. v.signed j);
}

-- A step of a call that has the lock, to another such stage.
stays :
    (d : Directory) (i : ℕ) (s : Stage)
    → has_lock (d.stage i) ≡ true
    → claims (d.stage i) ≡ true
    → is_reclaiming s ≡ false
    → IsGuarded d
    → IsGuarded (to_stage i s d)
stays d i s l c r v = record {
  backed = λ j.
      at_stage (λ t. claims t ≡ true → created_by j d.lock ≡ true) i j s d.stage
        (λ e k.
          let same = ap (λ m. created_by m d.lock) e in
          v.backed j (ap (λ m. claims (d.stage m)) e ∙ c))
        (λ e. v.backed j);
  settled = λ j. at_stage (λ t. is_reclaiming t ≡ false) i j s d.stage (λ e. r) (λ e. v.settled j);
  signed = λ j.
      at_stage (λ t. has_lock t ≡ true → owned_by j d.lock ≡ true) i j s d.stage
        (λ e k. v.signed j (ap (λ m. has_lock (d.stage m)) e ∙ l)) (λ e. v.signed j);
}

-- Only one call claims the lock.
pub claims_alone :
    (d : Directory) (i j : ℕ)
    → IsGuarded d
    → claims (d.stage i) ≡ true
    → claims (d.stage j) ≡ true
    → i ≡ j
claims_alone d i j v h k = one_creator d.lock (v.backed i h) (v.backed j k)
  where
    one_creator : (l : Option LockFile) → created_by i l ≡ true → created_by j l ≡ true → i ≡ j
    one_creator none m t = cc
    one_creator (some f) m t = ground (arith, m, t)

has_lock-claims : (s : Stage) → has_lock s ≡ true → claims s ≡ true
has_lock-claims holding h = refl
has_lock-claims leaving h = refl
has_lock-claims removing_own h = refl
has_lock-claims writing h = refl
has_lock-claims outside h = cc
has_lock-claims refused h = cc
has_lock-claims finished h = cc
has_lock-claims (creating n) h = cc
has_lock-claims (checking n) h = cc
has_lock-claims (inspecting n) h = cc
has_lock-claims (reclaiming n) h = cc

-- The claimant removes the lock.
removes :
    (d : Directory) (i : ℕ)
    → claims (d.stage i) ≡ true
    → IsGuarded d
    → IsGuarded (to_stage i finished (record d { lock = none }))
removes d i c v = record {
  backed = λ j.
      at_stage (λ t. claims t ≡ true → false ≡ true) i j finished d.stage (λ e k. cc)
        (λ e k. absurd (e (claims_alone d j i v k c)));
  settled = λ j.
      at_stage (λ t. is_reclaiming t ≡ false) i j finished d.stage (λ e. refl) (λ e. v.settled j);
  signed = λ j.
      at_stage (λ t. has_lock t ≡ true → false ≡ true) i j finished d.stage (λ e k. cc)
        (λ e k. absurd (e (claims_alone d j i v (has_lock-claims _ k) c)));
}

-- The files and the time change, but not who owns the lock.
elsewhere :
    (d e : Directory)
    → d.stage ≡ e.stage
    → ((j : ℕ)
        → (created_by j d.lock ≡ created_by j e.lock) × (owned_by j d.lock ≡ owned_by j e.lock))
    → IsGuarded d
    → IsGuarded e
elsewhere d e s l v = record {
  backed = λ j k. sym (l j).0 ∙ v.backed j (ap (λ f. claims (f j)) s ∙ k);
  settled = λ j. sym (ap (λ f. is_reclaiming (f j)) s) ∙ v.settled j;
  signed = λ j k. sym (l j).1 ∙ v.signed j (ap (λ f. has_lock (f j)) s ∙ k);
}

created-IsGuarded :
    (i n : ℕ) (l : Option LockFile) (d : Directory)
    → l ≡ d.lock
    → IsGuarded d
    → IsGuarded (created i l n d)
created-IsGuarded i n (some f) d e v = quits d i _ refl refl refl v
created-IsGuarded i n none d e v = record {
  backed = λ j.
      at_stage (λ t. claims t ≡ true → (i == j) ≡ true) i j writing d.stage
        (λ m k. ground (arith, m))
        (λ m k. let gone = ap (created_by j) e in let was = v.backed j k in cc);
  settled = λ j.
      at_stage (λ t. is_reclaiming t ≡ false) i j writing d.stage (λ m. refl) (λ m. v.settled j);
  signed = λ j.
      at_stage (λ t. has_lock t ≡ true → ((i == j) && false) ≡ true) i j writing d.stage (λ m k. cc)
        (λ m k. let gone = ap (owned_by j) e in let was = v.signed j k in cc);
}

filled-own :
    (i now : ℕ) (l : Option LockFile)
    → created_by i l ≡ true
    → (created_by i (filled i now l) ≡ true) × (owned_by i (filled i now l) ≡ true)
filled-own i now none h = cc
filled-own i now (some f) h =
    by_test (λ l. (created_by i l ≡ true) × (owned_by i l ≡ true)) (f.creator == i) _ _
      (λ k. (k, ground (arith, k))) (λ k. cc)

write-IsGuarded :
    (d : Directory) (i : ℕ) → d.stage i ≡ writing → IsGuarded d → IsGuarded (write_nonce i d)
unfolding write_nonce
write-IsGuarded d i h v =
    let mine = ap claims h in
    let own = filled-own i d.now d.lock (v.backed i mine) in
    record {
      backed = λ j.
          at_stage (λ t. claims t ≡ true → created_by j (filled i d.now d.lock) ≡ true) i j holding
            d.stage (λ e k. ap (λ m. created_by m (filled i d.now d.lock)) e ∙ own.0)
            (λ e k. absurd (e (claims_alone d j i v k mine)));
      settled = λ j.
          at_stage (λ t. is_reclaiming t ≡ false) i j holding d.stage (λ e. refl)
            (λ e. v.settled j);
      signed = λ j.
          at_stage (λ t. has_lock t ≡ true → owned_by j (filled i d.now d.lock) ≡ true) i j holding
            d.stage (λ e k. ap (λ m. owned_by m (filled i d.now d.lock)) e ∙ own.1)
            (λ e k. absurd (e (claims_alone d j i v (has_lock-claims _ k) mine)));
    }

-- Where a `Stat` leads that finds no stale lock.
abbrev IsQuiet : Stage → Type 0
IsQuiet s = (claims s ≡ false) × (has_lock s ≡ false) × (is_reclaiming s ≡ false)

next_attempt-IsQuiet : (n : ℕ) → IsQuiet (next_attempt n)
next_attempt-IsQuiet n =
    by_test IsQuiet (ltb (suc n) 2) _ _ (λ h. (refl, refl, refl)) (λ h. (refl, refl, refl))

inspected-IsQuiet :
    (l : Option LockFile) (now n : ℕ)
    → ((f : LockFile) → l ≡ some f → is_fresh now f ≡ true)
    → IsQuiet (inspected l now n)
inspected-IsQuiet none now n h = next_attempt-IsQuiet n
inspected-IsQuiet (some f) now n h =
    by_test IsQuiet (is_fresh now f) _ _ (λ k. (refl, refl, refl)) (λ k. let fresh = h f refl in cc)

touched-creator : (j now : ℕ) (l : Option LockFile) → created_by j (touched now l) ≡ created_by j l
touched-creator j now none = refl
touched-creator j now (some f) = refl

Step-IsGuarded : (d e : Directory) → Step false d e → IsGuarded d → IsGuarded e
unfolding create_lock write_nonce write_failed check_presence inspect_lock reclaim_lock touch_lock
    write_presence begin_cleanup drop_presence read_own remove_own
Step-IsGuarded _ _ (tick d t h) v = elsewhere d _ refl (λ j. (refl, refl)) v
Step-IsGuarded _ _ (begin d i h) v = quits d i _ refl refl refl v
Step-IsGuarded _ _ (create d i n h) v = created-IsGuarded i n d.lock d refl v
Step-IsGuarded _ _ (write d i h) v = write-IsGuarded d i h v
Step-IsGuarded _ _ (write_fails d i h) v = removes d i (ap claims h) v
Step-IsGuarded _ _ (check d i n h) v =
    by_test (λ s. IsGuarded (to_stage i s d)) (is_active d.presence d.now) _ _
      (λ a. quits d i _ refl refl refl v) (λ a. quits d i _ refl refl refl v)
Step-IsGuarded _ _ (inspect d i n h f) v = elim f [
  | inl k ↦ cc
  | inr k ↦ let quiet = inspected-IsQuiet d.lock d.now n k in quits d i _ quiet.0 quiet.1 quiet.2 v
]
Step-IsGuarded _ _ (reclaim d i n h) v =
    let was = ap is_reclaiming h in let never = v.settled i in cc
Step-IsGuarded _ _ (touch d i h) v =
    by_test IsGuarded (owns i d) _ _
      (λ o.
        elsewhere d _ refl
          (λ j. (sym (touched-creator j d.now d.lock), sym (touched-owner j d.now d.lock))) v)
      (λ o. v)
Step-IsGuarded _ _ (publish d i h) v = elsewhere d _ refl (λ j. (refl, refl)) v
Step-IsGuarded _ _ (cleanup d i h) v = stays d i leaving (ap has_lock h) (ap claims h) refl v
Step-IsGuarded _ _ (unpublish d i h) v =
    by_test IsGuarded (owns i d && is_of (d.process i) i d.presence) _ _
      (λ o. elsewhere d _ refl (λ j. (refl, refl)) v) (λ o. v)
Step-IsGuarded _ _ (read d i h) v =
    by_test (λ s. IsGuarded (to_stage i s d)) (owns i d) _ _
      (λ o. stays d i removing_own (ap has_lock h) (ap claims h) refl v)
      (λ o. let own = v.signed i (ap has_lock h) in cc)
Step-IsGuarded _ _ (release d i h) v = removes d i (ap claims h) v

Reachable-IsGuarded : (d : Directory) → Reachable false d → IsGuarded d
Reachable-IsGuarded _ (initially process) = record {
  backed = λ i h. cc;
  settled = λ i. refl;
  signed = λ i h. cc;
}
Reachable-IsGuarded _ (after d e r s) = Step-IsGuarded d e s (Reachable-IsGuarded d r)

-- While `Stat` finds no lock older than 15 s, which heartbeats are to prevent: at most one caller
-- has the lock at any time, whatever the processes do in whatever order, and the lock carries its
-- nonce.
pub holders_alone :
    (d : Directory) (i j : ℕ)
    → Reachable false d
    → has_lock (d.stage i) ≡ true
    → has_lock (d.stage j) ≡ true
    → (i ≡ j) × (owns i d ≡ true)
holders_alone d i j r h k =
    let v = Reachable-IsGuarded d r in
    (claims_alone d i j v (has_lock-claims _ h) (has_lock-claims _ k), v.signed i h)
