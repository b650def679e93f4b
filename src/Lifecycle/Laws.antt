-- ===== src/Lifecycle/Laws.antt =====
-- What the lifecycle client reports, and how often it asks.
use credimi_runner.Prelude.{
  by_test, ℕ, zero, suc, ◌+◌, ◌*◌, ◌≤◌, Bool, true, false, not, ◌||◌, ◌≡◌, ◌≢◌, ◌↔◌, ◌⊎◌, inl, inr,
  refl, sym, subst, ◌<◌, String, str_eq, Option, none, some, List, [], ◌∷◌, length, All, arith,
  if◌then◌else◌, ◌==◌,
}
use credimi_runner.GoError.{GoError}
use credimi_runner.Lifecycle.{
  LifecycleConfig, LifecycleDevice, DeviceReadiness, not_ready_reason, found_by, report_device,
  report_all, inventory_of, current_devices, is_lifecycle_retryable, request_attempts, Requests,
  Posted, posted, resume, settle, post_loop, complete, post,
}

-- A device is ready as far as the readiness says.
abbrev pub SaysReady : Option DeviceReadiness → Type 0
SaysReady none = ⊥
SaysReady (some s) = s.ready ≡ true

-- What a report says of one device of the inventory.
abbrev pub Reports : (String → Option DeviceReadiness) → LifecycleDevice → LifecycleDevice → Type 0
Reports ready d reported =
    (reported.device_id ≡ d.device_id)
    × ((reported.online ≡ true) ↔ ((d.online ≡ true) × SaysReady (ready d.device_id)))
    × (reported.online ≡ false → str_eq reported.reason "" ≡ false)

abbrev pub ReportsAll :
    (String → Option DeviceReadiness) → List LifecycleDevice → List LifecycleDevice → Type 0
ReportsAll ready [] [] = Unit
ReportsAll ready (d ∷ ds) (r ∷ rs) = Reports ready d r × ReportsAll ready ds rs
ReportsAll ready [] (r ∷ rs) = ⊥
ReportsAll ready (d ∷ ds) [] = ⊥

reason_given : (s : String) → str_eq (not_ready_reason s) "" ≡ false
reason_given s =
    by_test (λ (t : String). str_eq t "" ≡ false) (str_eq s "") _ _ (λ e. refl) (λ e. e)

found_by-Reports :
    (ready : String → Option DeviceReadiness) (d : LifecycleDevice) (o : Option DeviceReadiness)
    → d.online ≡ true
    → ((found_by o d).device_id ≡ d.device_id)
      × (((found_by o d).online ≡ true) ↔ ((d.online ≡ true) × SaysReady o))
      × ((found_by o d).online ≡ false → str_eq (found_by o d).reason "" ≡ false)
found_by-Reports ready d none h = (refl, (λ e. cc, λ e. absurd e.1), λ e. refl)
found_by-Reports ready d (some s) h = ground (arith, reason_given s.state)

report_device-Reports :
    (ready : String → Option DeviceReadiness) (d : LifecycleDevice)
    → Reports ready d (report_device ready d)
report_device-Reports ready d =
    by_test (Reports ready d) (not d.online) _ _ (λ h. ground arith)
      (λ h. found_by-Reports ready d (ready d.device_id) (ground arith))

-- With a readiness, `currentDevices` reports each device of the inventory under its own ID and in
-- its place. A device is reported online exactly if it is enabled and the readiness says that it
-- is ready, and one that is reported offline has a reason.
pub current_devices-ReportsAll :
    (devices : List LifecycleDevice) (inventory : Option (Option (List LifecycleDevice)))
    (ready : String → Option DeviceReadiness)
    → ReportsAll ready
        (inventory_of inventory devices)
        (current_devices devices inventory (some ready))
unfolding current_devices
current_devices-ReportsAll devices inventory ready = all (inventory_of inventory devices)
  where
    all : (ds : List LifecycleDevice) → ReportsAll ready ds (report_all ready ds)
    all [] = tt
    all (d ∷ ds) = (report_device-Reports ready d, all ds)

-- An attempt that was followed by another one.
abbrev pub Retried : Option GoError → Type 0
Retried none = ⊥
Retried (some e) = is_lifecycle_retryable e ≡ true

module _ {W : Type 0} (r : Requests W) where
  -- The pause after this attempt, in some world, ended with this error of the context and left
  -- this world.
  abbrev pub CutShort : ℕ → Option GoError → W → Type 0
  CutShort attempt error world =
      (sent : W) × ((r.pause (attempt * 250) sent).0 ≡ error)
      × ((r.pause (attempt * 250) sent).1 ≡ world)
      × (error ≢ none)

  -- How the attempts end: what the last attempt returned is returned, and it is not worth a retry
  -- or was the last one allowed; or the context ended in the pause after it.
  abbrev pub Ends : Option GoError → List (Option GoError) → W → Type 0
  Ends error [] world = ⊥
  Ends error (last ∷ earlier) world =
      All Retried earlier
      × (((error ≡ last) × (Retried last → suc (length earlier) ≡ request_attempts))
          ⊎ (Retried last
              × (suc (length earlier) < request_attempts)
              × CutShort (suc (length earlier)) error world))

  abbrev IsPosted : Posted W → Type 0
  IsPosted p = Ends p.error p.tried p.world × (length p.tried ≤ request_attempts)

  resume-IsPosted :
      (e : GoError) (tried : List (Option GoError)) (attempt : ℕ) (w : W) (rest : Posted W)
      → (c : Option GoError) → (r.pause (attempt * 250) w).0 ≡ c
      → is_lifecycle_retryable e ≡ true
      → All Retried tried
      → suc (length tried) ≡ attempt
      → attempt < request_attempts
      → (All Retried (some e ∷ tried) → IsPosted rest)
      → IsPosted (resume r c (some e ∷ tried) (r.pause (attempt * 250) w).1 rest)
  resume-IsPosted e tried attempt w rest (some c) h t a n l more =
      let cut : CutShort attempt (some c) (r.pause (attempt * 250) w).1 = (w, h, refl, λ q. cc) in
      let cut' = subst (λ k. CutShort k (some c) (r.pause (attempt * 250) w).1) (sym n) cut in
      ((a, inr (t, omega (arith, n, l), cut')), omega (arith, n, l))
  resume-IsPosted e tried attempt w rest none h t a n l more = more (t, a)

  settle-IsPosted :
      (e : Option GoError) (tried : List (Option GoError)) (attempt : ℕ) (w : W) (rest : Posted W)
      → All Retried tried
      → suc (length tried) ≡ attempt
      → attempt ≤ request_attempts
      → (attempt ≢ request_attempts → All Retried (e ∷ tried) → IsPosted rest)
      → IsPosted (settle r e tried attempt w rest)
  settle-IsPosted none tried attempt w rest h n l more =
      ((h, inl (refl, λ no. absurd no)), omega (arith, n, l))
  settle-IsPosted (some e) tried attempt w rest h n l more =
      by_test IsPosted (not (is_lifecycle_retryable e) || attempt == request_attempts) _ _
        (λ b. ((h, inl (refl, λ t. ground (arith, n, t, b))), omega (arith, n, l)))
        (λ b.
          resume-IsPosted e tried attempt w rest (r.pause (attempt * 250) w).0 refl (ground arith) h
            n (ground (arith, l)) (more (ground arith)))

  post_loop-IsPosted :
      (left attempt : ℕ) (last : Option GoError) (tried : List (Option GoError)) (w : W)
      → attempt + left ≡ suc request_attempts
      → suc (length tried) ≡ attempt
      → 1 ≤ left
      → All Retried tried
      → IsPosted (post_loop r left attempt last tried w)
  unfolding post_loop
  post_loop-IsPosted zero attempt last tried w s c n h = let no : ⊥ = omega (arith, n) in absurd no
  post_loop-IsPosted (suc left) attempt last tried w s c n h =
      settle-IsPosted (r.post_once w).0 tried attempt _ _ h c (omega (arith, s)) (λ early more.
        post_loop-IsPosted left (suc attempt) _ _ _ (omega (arith, s)) (omega (arith, c))
          (omega (arith, s, early)) more)

  -- A request of a client that is configured is attempted at least once and at most three times;
  -- every attempt but the last one failed with an error that may be retried. `post` returns either
  -- the outcome of the last attempt, which is not an error that may be retried unless it was the
  -- third attempt; or, after fewer than three attempts of which the last one could be retried too,
  -- the very error, not nil, with which the pause after it ended, in the world that this pause left.
  -- A client that is not configured asks nothing and returns nil.
  pub post-Ends :
      (cfg : LifecycleConfig) (w : W)
      → let p = post r cfg w in
        (complete r cfg ≡ true → Ends p.error p.tried p.world × (length p.tried ≤ request_attempts))
        × (complete r cfg ≡ false → (p.error ≡ none) × (p.tried ≡ []))
  unfolding post
  post-Ends cfg w =
      let loop =
        post_loop-IsPosted request_attempts 1 none [] w (omega arith) (omega arith) (omega arith)
          tt in
      (
        λ c. asked (complete r cfg) (post_loop r request_attempts 1 none [] w) loop c,
        λ c. skipped (complete r cfg) (post_loop r request_attempts 1 none [] w) c,
      )
    where
      asked :
          (b : Bool) (p : Posted W)
          → IsPosted p
          → b ≡ true
          → IsPosted (if b then p else posted r none [] w)
      asked true p h c = h
      asked false p h c = absurd (apart c)
        where
          apart : false ≡ true → ⊥
          apart e = cc

      skipped :
          (b : Bool) (p : Posted W)
          → b ≡ false
          → let q = if b then p else posted r none [] w in (q.error ≡ none) × (q.tried ≡ [])
      skipped true p c = cc
      skipped false p c = (refl, refl)
