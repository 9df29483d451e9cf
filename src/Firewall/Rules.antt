-- ===== src/Firewall/Rules.antt =====
-- The filter against an ordered list of rules, the first match of which decides.
use mathlib.Core.List.{append-nil, append_assoc}
use klux_os.Base.{
  ℕ, zero, suc, ◌+◌, ◌≤◌, ◌<◌, ◌≡◌, refl, ◌∙◌, ap, if◌then◌else◌, Bool, true, false, List, [], ◌∷◌,
  ◌++◌, sym, ◌||◌, some, length, take, drop, arith, length-set, take-set, drop-step,
}
use klux_os.Firewall.{
  Rule, Packet, Firewall, max_rules, rule_allow, rule_deny, added, table_full, init, add_rule,
  matches, check_from, check_packet,
}

-- The specification: the action of the first rule that matches, and denial if none does.
abbrev pub decide_by : List Rule → Packet → ℕ
decide_by [] p = rule_deny
decide_by (r ∷ rs) p = if matches r p then r.action else decide_by rs p

-- The rules in force, oldest first.
abbrev pub active : Firewall → List Rule
active f = take f.rule_count f.rules

abbrev pub any_matches : List Rule → Packet → Bool
any_matches [] p = false
any_matches (r ∷ rs) p = matches r p || any_matches rs p

pub record IsValid (f : Firewall) : Type 0 where
  pub storage : length f.rules ≡ max_rules
  pub count : f.rule_count ≤ max_rules

check_from-decide_by :
    (rules : List Rule) (p : Packet) (left i : ℕ)
    → i + left ≤ length rules
    → check_from rules p left i ≡ some (decide_by (take left (drop i rules)) p)
unfolding check_from
check_from-decide_by rules p zero i h = refl
check_from-decide_by rules p (suc left) i h =
    let (r, e, d) = drop-step rules i (omega arith) in
    ground (
      arith,
      e,
      ap (λ (l : List Rule). decide_by (take (suc left) l) p) d,
      check_from-decide_by rules p left (i + 1) (omega arith),
    )

-- On a well-formed table `firewall_check_packet` reads only entries inside the table, lets
-- everything pass while the filter is disabled, and otherwise answers with the action of the first
-- active rule that matches, or with denial if none does.
pub check_packet-decide_by :
    {f : Firewall} (p : Packet)
    → IsValid f
    → check_packet f p ≡ some (if f.enabled then decide_by (active f) p else rule_allow)
unfolding check_packet
check_packet-decide_by {f} p v =
    ground (arith, check_from-decide_by f.rules p f.rule_count 0 (omega arith))

-- `firewall_add_rule` keeps the table well formed. With room left it reports success, puts the rule
-- behind the active ones and keeps the switch as it is; a full table is refused and left as it is.
pub add_rule_lem :
    {f : Firewall} (r : Rule)
    → IsValid f
    → let (s, f') = add_rule f r in
      IsValid f'
      × (f'.enabled ≡ f.enabled)
      × (f.rule_count < max_rules → (s ≡ added) × (active f' ≡ active f ++ r ∷ []))
      × (f.rule_count ≡ max_rules → (s ≡ table_full) × (f' ≡ f))
unfolding add_rule
add_rule_lem {f} r v =
    ground (arith, length-set f.rules f.rule_count r, take-set f.rules f.rule_count r)

decide_by-append :
    (rs : List Rule) (r : Rule) (p : Packet)
    → decide_by (rs ++ r ∷ []) p
      ≡ (if any_matches rs p then decide_by rs p else if matches r p then r.action else rule_deny)
decide_by-append [] r p = refl
decide_by-append (q ∷ rs) r p = ground (arith, decide_by-append rs r p)

-- A rule added to an enabled, well-formed and not full filter decides exactly those packets that no
-- earlier active rule matches; every other packet is decided as before.
pub check_packet-add_rule :
    {f : Firewall} (r : Rule) (p : Packet)
    → IsValid f
    → f.enabled ≡ true
    → f.rule_count < max_rules
    → check_packet (add_rule f r).1 p ≡ (
        if any_matches (active f) p
        then check_packet f p
        else some (if matches r p then r.action else rule_deny))
check_packet-add_rule {f} r p v on room = ground (
  arith,
  add_rule_lem r v,
  check_packet-decide_by p v,
  check_packet-decide_by {f = (add_rule f r).1} p (add_rule_lem r v).0,
  decide_by-append (active f) r p,
)

-- `firewall_init`, then one call of `firewall_add_rule` for each rule of the list.
abbrev pub load : Firewall → List Rule → Firewall
load f [] = f
load f (r ∷ rs) = load (add_rule f r).1 rs

rule_count-add_rule : (f : Firewall) (r : Rule) → (add_rule f r).1.rule_count ≤ f.rule_count + 1
unfolding add_rule
rule_count-add_rule f r = ground arith

load-active :
    (rs : List Rule) {f : Firewall}
    → IsValid f
    → f.rule_count + length rs ≤ max_rules
    → IsValid (load f rs)
      × ((load f rs).enabled ≡ f.enabled)
      × (active (load f rs) ≡ active f ++ rs)
load-active [] {f} v h = (v, refl, sym (append-nil (active f)))
load-active (r ∷ rs) {f} v h =
    let a = add_rule_lem r v in
    let rest = load-active rs {f = (add_rule f r).1} a.0 (omega (arith, rule_count-add_rule f r)) in
    (
      rest.0,
      rest.1 ∙ a.1,
      rest.2 ∙ ap (λ l. l ++ rs) (a.2 (omega arith)).1 ∙ append_assoc (active f) (r ∷ []) rs,
    )

-- However the filter was set up before, `firewall_init` and then adding at most 256 rules in order
-- gives a filter that decides every packet by exactly that list of rules.
pub check_packet-load :
    {f : Firewall} (rs : List Rule) (p : Packet)
    → IsValid f
    → length rs ≤ max_rules
    → check_packet (load (init f) rs) p ≡ some (decide_by rs p)
unfolding init
check_packet-load {f} rs p v h =
    let fresh : IsValid (record f { rule_count = 0; enabled = true }) = omega arith in
    let l = load-active rs fresh (omega arith) in check_packet-decide_by p l.0 ∙ ground (arith, l)
