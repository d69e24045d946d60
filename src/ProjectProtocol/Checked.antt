-- ===== src/ProjectProtocol/Checked.antt =====
-- A check of project_protocol.py: it returns, or raises one of the protocol's errors.
use keys_keeper_skill.Prelude.{Bool, true, false, Option, none, some, ◌≡◌, refl}

-- The classes of exceptions, without their messages. `AuthorizationError` and `ReplayError` derive
-- from `AuthenticationError`.
pub data ProtocolError : Type 0 where
  validation authentication authorization replay : ProtocolError

pub data Checked {ℓ} (A : Type ℓ) : Type ℓ where
  valid : A → Checked A
  invalid : ProtocolError → Checked A

module _ {ℓ κ} {A : Type ℓ} {B : Type κ} where
  infixl 10 ◌>>=◌
  abbrev pub ◌>>=◌ : Checked A → (A → Checked B) → Checked B
  valid a >>= f = f a
  invalid e >>= f = invalid e

module _ {κ} {B : Type κ} where
  infixl 10 ◌>>◌
  abbrev pub ◌>>◌ : Checked (Unit {0}) → Checked B → Checked B
  m >> k = m >>= λ _. k

-- `if test: raise e`
abbrev pub refuse_if : Bool → ProtocolError → Checked (Unit {0})
refuse_if true e = invalid e
refuse_if false e = valid tt

-- a value, or `_fail()`
abbrev pub or_fail {ℓ} : {A : Type ℓ} → Option A → Checked A
or_fail none = invalid validation
or_fail (some a) = valid a

-- a check that returns has passed its first step
pub >>=-eq-valid {ℓ κ} :
    {A : Type ℓ} {B : Type κ} (m : Checked A) (f : A → Checked B) (b : B)
    → (m >>= f) ≡ valid b
    → (a : A) × (m ≡ valid a) × (f a ≡ valid b)
>>=-eq-valid (valid a) f b h = (a, refl, h)
>>=-eq-valid (invalid e) f b h = cc
