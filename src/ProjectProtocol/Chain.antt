-- ===== src/ProjectProtocol/Chain.antt =====
-- Policies that follow one another by accepted transitions, as a device or the relay holds them.
use keys_keeper_skill.Prelude.{
  ◌≤◌, ◌≡◌, refl, ◌∙◌, subst, arith, nat_eq, string_eq, option_eq, list_eq,
}
use keys_keeper_skill.SyncServer.Tables.{Bytes}
use keys_keeper_skill.SyncServer.Requests.{Json}
use keys_keeper_skill.ProjectProtocol.Checked.{valid}
use keys_keeper_skill.ProjectProtocol.Json.{Primitives}
use keys_keeper_skill.ProjectProtocol.Policy.{Policy, anything, verify_policy}
use keys_keeper_skill.ProjectProtocol.Transition.{validate_policy_transition}
use keys_keeper_skill.ProjectProtocol.Succession.{
  SameGrants, Follows, validate_policy_transition-Follows,
}

-- The record `t` with the policy `q` is reached from `r` with `p` by transitions that the pinned key
-- accepts.
pub data Chain (P : Primitives) (pin : Bytes) (r : Json) (p : Policy) : Json → Policy → Type 0 where
  start : Chain P pin r p r p
  extend :
      {s t : Json} {q q' : Policy}
      → Chain P pin r p s q
      → validate_policy_transition P s t pin ≡ valid q'
      → Chain P pin r p t q'

-- what an earlier policy fixes of a later one
pub record Descends (p q : Policy) : Type 0 where
  pub version : p.version ≤ q.version
  pub epoch : p.epoch ≤ q.epoch
  pub checkpoint : p.checkpoint_sequence ≤ q.checkpoint_sequence
  pub same_version : q.version ≡ p.version → q ≡ p
  pub kept_epoch : q.epoch ≡ p.epoch → SameGrants p q
  pub scope : q.scope_id ≡ p.scope_id
  pub vault : q.vault_id ≡ p.vault_id
  pub master : q.master_device_id ≡ p.master_device_id
  pub inbox : q.inbox_public_key ≡ p.inbox_public_key

Descends-refl : (p : Policy) → Descends p p
Descends-refl p = record {
  version = omega arith;
  epoch = omega arith;
  checkpoint = omega arith;
  same_version = λ e. refl;
  kept_epoch = λ e d. refl;
  scope = refl;
  vault = refl;
  master = refl;
  inbox = refl;
}

Descends-Follows : (p q q' : Policy) → Descends p q → Follows q q' → Descends p q'
Descends-Follows p q q' d f = record {
  version = omega (arith, d.version, f.next_version);
  epoch = ground (arith, d.epoch, f.epoch);
  checkpoint = omega (arith, d.checkpoint, f.no_rollback);
  same_version = λ e. absurd (omega (arith, d.version, f.next_version));
  kept_epoch = λ e x.
      let kept : q'.epoch ≡ q.epoch = ground (arith, d.epoch, f.epoch) in
      let before : q.epoch ≡ p.epoch = omega arith in d.kept_epoch before x ∙ f.kept_epoch kept x;
  scope = f.scope ∙ d.scope;
  vault = f.vault ∙ d.vault;
  master = f.master ∙ d.master;
  inbox = f.inbox ∙ d.inbox;
}

-- Over any number of accepted transitions from a policy that the master signed: versions, epochs and
-- checkpoints never go back, two policies of one version are the same, the scope, the vault, the
-- master and the inbox stay, and as long as the epoch stays, no device gains, loses or changes a
-- grant. The last policy is signed by the master, too.
pub Chain-Descends :
    (P : Primitives) (pin : Bytes) (r : Json) (p : Policy) (t : Json) (q : Policy)
    → verify_policy P r pin anything ≡ valid p
    → Chain P pin r p t q
    → (verify_policy P t pin anything ≡ valid q) × Descends p q
Chain-Descends P pin r p t q signed start = (signed, Descends-refl p)
Chain-Descends P pin r p t q signed (extend {s = s} {q = q₁} c accepted) =
    let (old, verified, plain, f, signed_old, signed_new, linked) =
      validate_policy_transition-Follows P s t pin q accepted in
    let (before, d) = Chain-Descends P pin r p s q₁ signed c in
    let same : old ≡ q₁ = ground arith in
    (plain, Descends-Follows p q₁ q d (subst (λ x. Follows x q) same f))
