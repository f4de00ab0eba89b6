-- ===== src/Access/Abilities.antt =====
-- src/generic/auth/ability.factory.ts and ability.guard.ts. An ability of CASL is the list of the rules that `can` has added: it allows an
-- action on a type of subject if a rule is about them, and on a given order if the rule's condition holds of it.
use marketplace_api_v.Common.{
  ℕ, Bool, true, false, not, ◌&&◌, Option, none, some, List, [], ◌∷◌, ◌==◌, if◌then◌else◌, any,
}
use marketplace_api_v.Identity.Store.{Role, owner, seller, admin}
use marketplace_api_v.Access.Tokens.{AccessClaims}

pub data Action : Type 0 where
  create read : Action

pub data Subject : Type 0 where
  order product : Subject

-- A rule, with the owner that an order must have if the rule has a condition.
pub record Rule : Type 0 where
  pub action : Action
  pub subject : Subject
  pub owner_condition : Option ℕ

abbrev pub Ability : Type 0
Ability = List Rule

abbrev pub same_action : Action → Action → Bool
same_action create create = true
same_action read read = true
same_action _ _ = false

abbrev pub same_subject : Subject → Subject → Bool
same_subject order order = true
same_subject product product = true
same_subject _ _ = false

abbrev pub is_about : Action → Subject → Rule → Bool
is_about a s r = same_action r.action a && same_subject r.subject s

-- `ability.can(action, subject)` of a type.
abbrev pub can : Ability → Action → Subject → Bool
can ability a s = any (is_about a s) ability

abbrev pub meets_condition : Option ℕ → Option ℕ → Bool
meets_condition none owned_by = true
meets_condition (some o) none = false
meets_condition (some o) (some i) = i == o

-- `ability.can(action, subject('Order', { ownerIdentityPublicId }))`
abbrev pub can_order : Ability → Action → Option ℕ → Bool
can_order ability a owned_by =
    any (λ (r : Rule). is_about a order r && meets_condition r.owner_condition owned_by) ability

abbrev pub is_staff : Role → Bool
is_staff admin = true
is_staff owner = true
is_staff _ = false

abbrev pub may_sell : Role → Bool
may_sell seller = true
may_sell r = is_staff r

abbrev pub read_rule : AccessClaims → Rule
read_rule c =
    if is_staff c.role
    then record { action = read; subject = order; owner_condition = none }
    else record { action = read; subject = order; owner_condition = some c.identity_public_id }

abbrev pub product_rules : Bool → List Rule
product_rules true = record { action = create; subject = product; owner_condition = none } ∷ []
product_rules false = []

-- `createFor`
unfoldable pub create_for : AccessClaims → Ability
create_for c =
    record { action = create; subject = order; owner_condition = none }
    ∷ read_rule c
    ∷ product_rules (may_sell c.role)

abbrev pub ability_of : Option AccessClaims → Option Ability
ability_of none = none
ability_of (some c) = some (create_for c)

abbrev pub allows : Option Ability → Action → Subject → Bool
allows none a s = false
allows (some ability) a s = can ability a s

-- How the guard ends: it lets the request through with its ability, or it throws `ForbiddenException`.
pub data AbilityOutcome : Type 0 where
  allowed : Option Ability → AbilityOutcome
  insufficient : AbilityOutcome

abbrev pub check_requirement : Option Ability → Option (Action × Subject) → AbilityOutcome
check_requirement ability none = allowed ability
check_requirement ability (some (a, s)) =
    if allows ability a s then allowed ability else insufficient

-- `AbilityGuard.canActivate`, for a request that is of HTTP or not, its identity and the requirement of its handler.
unfoldable pub check_ability :
    Bool → Option AccessClaims → Option (Action × Subject) → AbilityOutcome
check_ability is_http identity required =
    if not is_http then allowed none else check_requirement (ability_of identity) required
