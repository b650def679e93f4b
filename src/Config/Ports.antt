-- ===== src/Config/Ports.antt =====
-- The ports that the configuration reads from texts.
use credimi_runner.Prelude.{
  ℕ, ◌≤◌, Bool, true, false, ◌&&◌, ◌≡◌, inl, inr, refl, sym, ap, subst, ◌∙◌, String, eq_iff, Option,
  none, some, arith, if◌then◌else◌, Bool-cases,
}
use credimi_runner.Strings.{trim_space, is_blank}
use credimi_runner.Strings.Numbers.{atoi, is_port}
use credimi_runner.Config.{GoInt, pos, negsuc}
use credimi_runner.Config.Checks.{valid_port, in_ports, parse_adb_port, port_or_error}

-- A TCP port.
abbrev pub InRange : GoInt → Type 0
InRange p = (n : ℕ) × (p ≡ pos n) × (1 ≤ n) × (n ≤ 65535)

is_port-InRange : (p : GoInt) → is_port p ≡ true → InRange p
is_port-InRange (pos n) h = (n, refl, ground arith, ground arith)
is_port-InRange (negsuc n) h = cc

abbrev EachInRange : Option GoInt → Type 0
EachInRange none = Unit
EachInRange (some p) = InRange p

guarded : (b : Bool) (p : GoInt) → (b ≡ true → InRange p) → EachInRange (if b then some p else none)
guarded true p h = h refl
guarded false p h = tt

or_error-InRange : (o : Option GoInt) → EachInRange (port_or_error o)
or_error-InRange none = tt
or_error-InRange (some p) = guarded (is_port p) p (is_port-InRange p)

either :
    (b : Bool) (o : Option GoInt) → EachInRange o → EachInRange (if b then some (pos 5555) else o)
either true o h = (5555, refl, omega arith, omega arith)
either false o h = h

parsed-InRange : (value : String) → EachInRange (parse_adb_port value)
unfolding parse_adb_port
parsed-InRange value = either (is_blank value) _ (or_error-InRange (atoi (trim_space value)))

in_ports_or_error :
    (o : Option GoInt) → in_ports o ≡ true → (p : GoInt) × (o ≡ some p) × (port_or_error o ≡ some p)
in_ports_or_error none h = cc
in_ports_or_error (some p) h = (p, refl, ap (λ b. if b then some p else none) h)

-- A blank text is no number.
number_given :
    (value : String) (p : GoInt) → atoi (trim_space value) ≡ some p → is_blank value ≡ false
unfolding is_blank atoi
number_given value p h = elim (Bool-cases (is_blank value)) [ inl e ↦ blank (number e) | inr e ↦ e ]
  where
    number : is_blank value ≡ true → ◌≡◌ {A = Option GoInt} none (some p)
    number e = sym (ap atoi ((eq_iff (trim_space value) "").0 e)) ∙ h

    blank : ◌≡◌ {A = Option GoInt} none (some p) → is_blank value ≡ false
    blank e = cc

-- A port that `ParseADBPort` returns is between 1 and 65535. Whatever `validPort` accepts once
-- trimmed, as the Wi-Fi port of a phone, `ParseADBPort` parses to the number that `Atoi` reads.
pub parse_adb_port-InRange :
    (value : String)
    → ((p : GoInt) → parse_adb_port value ≡ some p → InRange p)
      × (valid_port (trim_space value) ≡ true
          → (p : GoInt) × (parse_adb_port value ≡ some p) × (atoi (trim_space value) ≡ some p))
unfolding parse_adb_port valid_port
parse_adb_port-InRange value = (
  λ p h. subst EachInRange h (parsed-InRange value),
  λ h.
      let q = in_ports_or_error (atoi (trim_space value)) (right _ _ h) in
      (
        q.0,
        ap (λ b. if b then some (pos 5555) else port_or_error (atoi (trim_space value)))
              (number_given value q.0 q.1)
            ∙ q.2,
        q.1,
      ),
)
  where
    right : (a b : Bool) → (a && b) ≡ true → b ≡ true
    right a b h = ground arith
