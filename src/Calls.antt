-- ===== src/Calls.antt =====
-- What the engines' calls share: a call takes and extends the state of the world it is made in, and
-- is `none` where it never comes back.
use bme.Base.{Bool, true, false, Option, none, some, if◌then◌else◌, ◌≡◌, refl}

-- Calls over worlds of type `S`, with results of type `A`.
abbrev pub Calling : Type 0 → Type 0 → Type 0
Calling S A = S → Option (A × S)

abbrev pub pure : {S A : Type 0} → A → Calling S A
pure a world = some (a, world)

abbrev pub and_then : {S A B : Type 0} → Option (A × S) → (A → Calling S B) → Option (B × S)
and_then none next = none
and_then (some (a, world)) next = next a world

infixr 5 ◌>>=◌ ◌>>◌
abbrev pub ◌>>=◌ : {S A B : Type 0} → Calling S A → (A → Calling S B) → Calling S B
◌>>=◌ m next world = and_then (m world) next

abbrev pub ◌>>◌ : {S A B : Type 0} → Calling S A → Calling S B → Calling S B
first >> next = first >>= λ _. next

abbrev pub is_some : {A : Type 0} → Option A → Bool
is_some none = false
is_some (some a) = true

-- A call that is only made where those before it succeeded.
abbrev pub when : {S A : Type 0} → Bool → Calling S (Option A) → Calling S (Option A)
when true m world = m world
when false m world = some (none, world)

-- The call returns, with a result and a world of the kind.
pub data Returns {S A : Type 0} (P : A → S → Type 0) : Option (A × S) → Type 0 where
  returns : (a : A) (world : S) → P a world → Returns P (some (a, world))

pub Returns-map :
    {S A : Type 0} {P Q : A → S → Type 0} (r : Option (A × S))
    → ((a : A) (world : S) → P a world → Q a world)
    → Returns P r
    → Returns Q r
Returns-map _ step (returns a world held) = returns a world (step a world held)

-- A chain returns what its second part does.
pub Returns-and_then :
    {S A B : Type 0} {P : A → S → Type 0} {Q : B → S → Type 0} (r : Option (A × S))
    (next : A → Calling S B)
    → ((a : A) (world : S) → P a world → Returns Q (next a world))
    → Returns P r
    → Returns Q (and_then r next)
Returns-and_then _ next step (returns a world held) = step a world held

pub Returns-if :
    {S A : Type 0} {P : A → S → Type 0} (then_run else_run : Calling S A) (world : S) (test : Bool)
    → (test ≡ true → Returns P (then_run world))
    → (test ≡ false → Returns P (else_run world))
    → Returns P ((if test then then_run else else_run) world)
Returns-if _ _ _ true on_yes on_no = on_yes refl
Returns-if _ _ _ false on_yes on_no = on_no refl

pub Returns-when :
    {S A : Type 0} {P : Option A → S → Type 0} (test : Bool) (m : Calling S (Option A)) (world : S)
    → P none world
    → Returns P (m world)
    → Returns P (when test m world)
Returns-when true m world skipped made = made
Returns-when false m world skipped made = returns none world skipped
