-- ===== src/Device/Exclusion.antt =====
-- The gates let one caller at a time work on a device.
use credimi_runner.Prelude.{
  ℕ, ◌<◌, ◌≡◌, ◌≢◌, refl, sym, ap, subst, ◌∙◌, inl, inr, Bool, true, false, String, str_eq, Option,
  none, some, arith, eq_iff, ◌==◌, ==_iff, Bool-cases,
}
use credimi_runner.GoError.{GoError}
use credimi_runner.Device.Gate.{
  Grant, Gates, new_gates, set_token, set_grant, granted, with_entry, receive, select, acquire,
  give_back, release,
}

-- The calls of callers in any order; a caller that waits calls again.
pub data Step (g : Gates) : Gates → Type 0 where
  acquires : (early late : Option GoError) (id : String) → Step g (acquire early late id g).0
  releases : (n : ℕ) → n < g.fresh → Step g (release n g)

pub data Reachable : Gates → Type 0 where
  starts_empty : Reachable new_gates
  goes_on : {g h : Gates} → Reachable g → Step g h → Reachable h

-- While a grant has not been given back, the token of its device is out, and no other grant of that
-- device is out.
pub record IsExclusive (g : Gates) : Type 0 where
  pub out :
      (n : ℕ) → n < g.fresh → (g.grants n).used ≡ false → g.tokens (g.grants n).device ≡ some false
  pub alone :
      (n m : ℕ)
      → n < g.fresh
      → m < g.fresh
      → (g.grants n).used ≡ false
      → (g.grants m).used ≡ false
      → (g.grants n).device ≡ (g.grants m).device
      → n ≡ m

set_token-cases :
    (P : Option Bool → Type 0) (id : String) (b : Bool) (tokens : String → Option Bool) (x : String)
    → (x ≡ id → P (some b))
    → (x ≢ id → P (tokens x))
    → P (set_token id b tokens x)
set_token-cases P id b tokens x here there = elim (Bool-cases (str_eq x id)) [
  | inl same ↦ rw same (here ((eq_iff x id).0 same))
  | inr differs ↦ rw differs (there (λ e. let t = (eq_iff x id).1 e in cc (t, differs)))
]

set_grant-cases :
    (P : ℕ → Grant → Type 0) (n : ℕ) (grant : Grant) (grants : ℕ → Grant) (m : ℕ)
    → P n grant
    → (m ≢ n → P m (grants m))
    → P m (set_grant n grant grants m)
set_grant-cases P n grant grants m here there = elim (Bool-cases (m == n)) [
  | inl same ↦ rw same (subst (λ x. P x grant) (sym ((==_iff m n).0 same)) here)
  | inr differs ↦ rw differs (there (λ e. ground arith))
]

with_entry-IsExclusive :
    (o : Option Bool) (id : String) (g : Gates)
    → g.tokens id ≡ o
    → IsExclusive g
    → IsExclusive (with_entry o id g)
with_entry-IsExclusive (some b) id g e h = h
with_entry-IsExclusive none id g e h = record {
  out = λ n lt u.
      set_token-cases (λ o. o ≡ some false) id true g.tokens (g.grants n).device
        (λ same. let o = h.out n lt u in let p = ap g.tokens same in cc (o, p, e))
        (λ _. h.out n lt u);
  alone = h.alone;
}

receive-IsExclusive :
    (o : Option Bool) (id : String) (g : Gates)
    → g.tokens id ≡ o
    → IsExclusive g
    → IsExclusive (receive o id g).0
receive-IsExclusive none id g e h = h
receive-IsExclusive (some false) id g e h = h
receive-IsExclusive (some true) id g e h =
    let new : Grant = record { device = id; used = false } in
    let other : (n : ℕ) → n < g.fresh → (g.grants n).used ≡ false → (g.grants n).device ≢ id =
      λ n lt u same. let o = h.out n lt u in let p = ap g.tokens same in cc (o, p, e) in
    record {
      out = λ n lt.
          set_grant-cases
            (λ x grant. grant.used ≡ false → set_token id false g.tokens grant.device ≡ some false)
            g.fresh new g.grants n
            (λ u.
              set_token-cases (λ o. o ≡ some false) id false g.tokens id (λ _. refl)
                (λ d. absurd (d refl)))
            (λ old u.
              set_token-cases (λ o. o ≡ some false) id false g.tokens (g.grants n).device
                (λ _. refl) (λ _. h.out n (omega (arith, lt, old)) u));
      alone = λ n m ln lm.
          set_grant-cases
            (λ x grant.
              grant.used ≡ false
              → (set_grant g.fresh new g.grants m).used ≡ false
              → grant.device ≡ (set_grant g.fresh new g.grants m).device
              → x ≡ m)
            g.fresh new g.grants n
            (λ u.
              set_grant-cases (λ y grant. grant.used ≡ false → id ≡ grant.device → g.fresh ≡ y)
                g.fresh new g.grants m (λ _ _. refl)
                (λ old v same. absurd (other m (omega (arith, lm, old)) v (sym same))))
            (λ old u.
              set_grant-cases
                (λ y grant. grant.used ≡ false → (g.grants n).device ≡ grant.device → n ≡ y) g.fresh
                new g.grants m (λ _ same. absurd (other n (omega (arith, ln, old)) u same))
                (λ old' v same.
                  h.alone n m (omega (arith, ln, old)) (omega (arith, lm, old')) u v same));
    }

select-IsExclusive :
    (late : Option GoError) (id : String) (g : Gates)
    → IsExclusive g
    → IsExclusive (select late id g).0
select-IsExclusive none id g h = receive-IsExclusive (g.tokens id) id g refl h
select-IsExclusive (some e) id g h = h

acquire-IsExclusive :
    (early late : Option GoError) (id : String) (g : Gates)
    → IsExclusive g
    → IsExclusive (acquire early late id g).0
unfolding acquire
acquire-IsExclusive (some e) late id g h = h
acquire-IsExclusive none late id g h =
    select-IsExclusive late id _ (with_entry-IsExclusive (g.tokens id) id g refl h)

give_back-IsExclusive :
    (used : Bool) (n : ℕ) (g : Gates)
    → (g.grants n).used ≡ used
    → n < g.fresh
    → IsExclusive g
    → IsExclusive (give_back used n g)
give_back-IsExclusive true n g e lt h = h
give_back-IsExclusive false n g e lt h =
    let given : Grant = record (g.grants n) { used = true } in
    record {
      out = λ m lm.
          set_grant-cases
            (λ x grant.
              grant.used ≡ false
              → set_token (g.grants n).device true g.tokens grant.device ≡ some false)
            n given g.grants m (λ u. cc)
            (λ old u.
              set_token-cases (λ o. o ≡ some false) (g.grants n).device true g.tokens
                (g.grants m).device (λ same. absurd (old (h.alone m n lm lt u e same)))
                (λ _. h.out m lm u));
      alone = λ a b la lb.
          set_grant-cases
            (λ x grant.
              grant.used ≡ false
              → (set_grant n given g.grants b).used ≡ false
              → grant.device ≡ (set_grant n given g.grants b).device
              → x ≡ b)
            n given g.grants a (λ u. cc)
            (λ _ u.
              set_grant-cases
                (λ y grant. grant.used ≡ false → (g.grants a).device ≡ grant.device → a ≡ y) n given
                g.grants b (λ v. cc) (λ _ v same. h.alone a b la lb u v same));
    }

Step-IsExclusive : {g h : Gates} → Step g h → IsExclusive g → IsExclusive h
unfolding release
Step-IsExclusive {g} (acquires early late id) h = acquire-IsExclusive early late id g h
Step-IsExclusive {g} (releases n lt) h = give_back-IsExclusive (g.grants n).used n g refl lt h

new-IsExclusive : IsExclusive new_gates
unfolding new_gates
new-IsExclusive = record {
  out = λ n lt u. cc;
  alone = λ n m ln lm u v same. absurd (omega (arith, ln));
}

-- Whatever callers do, the token of a device is out while a grant of it has not been given back,
-- and at most one grant of a device is out.
pub Reachable-IsExclusive : {g : Gates} → Reachable g → IsExclusive g
Reachable-IsExclusive starts_empty = new-IsExclusive
Reachable-IsExclusive (goes_on r s) = Step-IsExclusive s (Reachable-IsExclusive r)

given_back : (used : Bool) (n : ℕ) (g : Gates) → used ≡ true → give_back used n g ≡ g
given_back true n g e = refl
given_back false n g e = cc

give_back_used :
    (used : Bool) (n : ℕ) (g : Gates)
    → (g.grants n).used ≡ used
    → ((give_back used n g).grants n).used ≡ true
give_back_used true n g e = e
give_back_used false n g e = rw ((==_iff n n).1 refl) refl

-- Giving a grant back a second time does nothing.
pub release-release : (n : ℕ) (g : Gates) → release n (release n g) ≡ release n g
unfolding release
release-release n g =
    let r = give_back (g.grants n).used n g in
    given_back (r.grants n).used n r (give_back_used (g.grants n).used n g refl)

received :
    (o : Option Bool) (id : String) (g : Gates)
    → g.tokens id ≡ o
    → o ≡ some true
    → (select none id (with_entry o id g)).1 ≡ granted g.fresh
received none id g e p = cc
received (some b) id g e p = ap (λ o. (receive o id g).1) (e ∙ p)

-- After a grant was given back for the first time, the next caller for its device gets one at once.
pub acquire-release :
    (n : ℕ) (g : Gates)
    → (g.grants n).used ≡ false
    → (acquire none none (g.grants n).device (release n g)).1 ≡ granted g.fresh
unfolding acquire release
acquire-release n g e =
    let h = give_back false n g in
    let id = (g.grants n).device in
    let back : h.tokens id ≡ some true = rw ((eq_iff id id).1 refl) refl in
    subst (λ used. (acquire none none id (give_back used n g)).1 ≡ granted g.fresh) (sym e)
      (received (h.tokens id) id h refl back)
