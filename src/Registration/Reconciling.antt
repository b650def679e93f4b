-- ===== src/Registration/Reconciling.antt =====
-- When a registration reconciles the devices that Credimi knows.
use Prim.Native.String.{String}
use credimi_runner.Prelude.{
  by_test, Bool, true, false, ◌≡◌, ◌⊎◌, inl, inr, refl, sym, ap, ◌∙◌, Option, none, some, List, [],
  ◌∷◌, ◌++◌, map, All, str_eq,
}
use credimi_runner.GoError.{GoError, Result, ok, err}
use credimi_runner.Config.{Config}
use credimi_runner.Strings.{is_blank}
use credimi_runner.Registration.{
  InventoryDevice, Call, RunnerRequest, ReconcileRequest, registered_runner, told,
  registered_device, reconciled, Client, api_key, runner_request, reconcile_request, Loop,
  after_device, register_devices, reconcile_all, register_inventory, after_runner, at_endpoint,
  register,
}
use credimi_runner.Registration.Laws.{IsTaken, id_of, call_of, IsLoop, register_devices-IsLoop}

module _ (cfg : Config) (client : Client) where
  abbrev pub Among : Call → List Call → Type 0
  Among c [] = ⊥
  Among c (d ∷ ds) = (c ≡ d) ⊎ Among c ds

  abbrev is_reconcile : Call → Bool
  is_reconcile (reconciled r) = true
  is_reconcile (registered_runner r) = false
  is_reconcile told = false
  is_reconcile (registered_device r) = false

  abbrev request_or : ReconcileRequest → Call → ReconcileRequest
  request_or r (reconciled q) = q
  request_or r (registered_runner q) = r
  request_or r told = r
  request_or r (registered_device q) = r

  Among-append : (c : Call) (xs ys : List Call) → Among c (xs ++ ys) → Among c xs ⊎ Among c ys
  Among-append c [] ys h = inr h
  Among-append c (x ∷ xs) ys h = elim h [
    | inl e ↦ inl (inl e)
    | inr k ↦ elim (Among-append c xs ys k) [ inl i ↦ inl (inr i) | inr j ↦ inr j ]
  ]

  -- No device call is a reconciliation.
  after_device-calls :
      (r : ReconcileRequest) (d : InventoryDevice) (o : Option GoError) (l : Loop)
      → (Among (reconciled r) l.calls → ⊥)
      → Among (reconciled r) (after_device cfg client d o l).calls
      → ⊥
  after_device-calls r d (some e) l f h = elim h [
    | inl k ↦ let no = ap is_reconcile k in cc
    | inr k ↦ f k
  ]
  after_device-calls r d none l f h = elim h [
    | inl k ↦ let no = ap is_reconcile k in cc
    | inr k ↦ f k
  ]

  devices-calls :
      (r : ReconcileRequest) (ds : List InventoryDevice)
      → Among (reconciled r) (register_devices cfg client ds).calls
      → ⊥
  unfolding register_devices
  devices-calls r [] = λ h. h
  devices-calls r (d ∷ ds) =
      by_test (λ (l : Loop). Among (reconciled r) l.calls → ⊥) (is_blank d.id) _ _
        (λ b. devices-calls r ds) (λ b. after_device-calls r d _ _ (devices-calls r ds))

  -- Every device of the inventory has been taken, the request is of all of them, and it is the
  -- last of these calls, after the calls for all the devices.
  abbrev pub IsWhole : Result (List InventoryDevice) → ReconcileRequest → List Call → Type 0
  IsWhole (err e) r calls = ⊥
  IsWhole (ok ds) r calls =
      All (IsTaken cfg client) ds
      × (r ≡ reconcile_request cfg (map (id_of cfg client) ds))
      × (calls ≡ map (call_of cfg client) ds ++ reconciled r ∷ [])

  -- The same after the call that registers the runner, which Credimi has taken.
  abbrev pub IsWholeAfterRunner :
      Result (List InventoryDevice) → ReconcileRequest → List Call → Type 0
  IsWholeAfterRunner inventory r calls =
      (q : RunnerRequest) × (rest : List Call) × (client.register_runner q ≡ none)
      × (calls ≡ registered_runner q ∷ told ∷ rest)
      × IsWhole inventory r rest

  -- A reconciliation among these calls is whole.
  abbrev OnlyWhole : Result (List InventoryDevice) → List Call × Option GoError → Type 0
  OnlyWhole inventory c =
      (r : ReconcileRequest) → Among (reconciled r) c.0 → IsWhole inventory r c.0

  abbrev OnlyAfterRunner : Result (List InventoryDevice) → List Call × Option GoError → Type 0
  OnlyAfterRunner inventory c =
      (r : ReconcileRequest) → Among (reconciled r) c.0 → IsWholeAfterRunner inventory r c.0

  reconcile_all-OnlyWhole :
      (ds : List InventoryDevice) (es : List GoError) (l : Loop)
      → l.errors ≡ es
      → IsLoop cfg client ds l
      → ((r : ReconcileRequest) → Among (reconciled r) l.calls → ⊥)
      → OnlyWhole (ok ds) (reconcile_all cfg client es l)
  reconcile_all-OnlyWhole ds (e ∷ es) l h v n r a = absurd (n r a)
  reconcile_all-OnlyWhole ds [] l h v n r a = elim (Among-append (reconciled r) l.calls _ a) [
    | inl k ↦ absurd (n r k)
    | inr k ↦ elim k [
      | inl e ↦
          let same = ap (request_or r) e in
          (
            v.0.0 h,
            same ∙ ap (reconcile_request cfg) (v.1 h).0,
            ap (λ c. c ++ reconciled (reconcile_request cfg l.ids) ∷ []) (v.1 h).1
                ∙ ap (λ q. map (call_of cfg client) ds ++ reconciled q ∷ []) (sym same),
          )
      | inr z ↦ absurd z
    ]
  ]

  register_inventory-OnlyWhole :
      (inventory : Result (List InventoryDevice))
      → OnlyWhole inventory (register_inventory cfg client inventory)
  unfolding register_inventory
  register_inventory-OnlyWhole (err e) = λ r a. absurd a
  register_inventory-OnlyWhole (ok ds) =
      reconcile_all-OnlyWhole ds _ _ refl (register_devices-IsLoop cfg client ds)
        (λ r. devices-calls r ds)

  after_runner-OnlyWhole :
      (inventory : Result (List InventoryDevice)) (q : RunnerRequest) (o : Option GoError)
      → client.register_runner q ≡ o
      → OnlyAfterRunner inventory (after_runner cfg client inventory q o)
  unfolding register_inventory
  after_runner-OnlyWhole inventory q (some e) h r a = elim a [
    | inl k ↦ let no = ap is_reconcile k in cc
    | inr k ↦ absurd k
  ]
  after_runner-OnlyWhole inventory q none h r a = elim a [
    | inl k ↦ let no = ap is_reconcile k in cc
    | inr k ↦ elim k [
      | inl j ↦ let no = ap is_reconcile j in cc
      | inr j ↦ (q, _, h, refl, register_inventory-OnlyWhole inventory r j)
    ]
  ]

  at_endpoint-OnlyWhole :
      (inventory : Result (List InventoryDevice)) (x : Result (String × String))
      → OnlyAfterRunner inventory (at_endpoint cfg client inventory x)
  unfolding register_inventory runner_request
  at_endpoint-OnlyWhole inventory (err e) r a = absurd a
  at_endpoint-OnlyWhole inventory (ok address) r a = after_runner-OnlyWhole inventory _ _ refl r a

  -- If `Register` asks Credimi to reconcile the devices of the runner, then all its calls are, in
  -- this order: the registration of the runner, which Credimi has taken, the report of it, one call
  -- for each device of the inventory, each of which has an ID and has been taken, and last this
  -- reconciliation, with the IDs of all of them.
  pub register-reconciles :
      (url : String) (inventory : Result (List InventoryDevice)) (r : ReconcileRequest)
      → Among (reconciled r) (register cfg client url inventory).0
      → IsWholeAfterRunner inventory r (register cfg client url inventory).0
  unfolding register
  register-reconciles url inventory r a =
      by_test
        (λ (c : List Call × Option GoError).
          Among (reconciled r) c.0 → IsWholeAfterRunner inventory r c.0)
        (str_eq (api_key cfg) "") _ _ (λ b z. absurd z)
        (λ b k. at_endpoint-OnlyWhole inventory _ r k) a
