-- ===== src/Firewall.antt =====
-- KluxOS/src/security/firewall.c: the packet filter, a table of at most 256 rules searched in
-- order. What the functions print goes to the console and is not part of this state.
pub mod Rules
mod Tests
use klux_os.Base.{
  ℕ, zero, suc, ◌+◌, ◌==◌, ltb, if◌then◌else◌, Bool, true, false, ◌&&◌, ◌||◌, List, [], ◌∷◌, Option,
  none, some, get_elem?, set,
}

-- `struct firewall_rule`. A field 0 stands for any value.
pub record Rule : Type 0 where
  pub src_ip : ℕ
  pub dst_ip : ℕ
  pub src_port : ℕ
  pub dst_port : ℕ
  pub protocol : ℕ
  pub action : ℕ

-- The arguments of `firewall_check_packet`.
pub record Packet : Type 0 where
  pub src_ip : ℕ
  pub dst_ip : ℕ
  pub src_port : ℕ
  pub dst_port : ℕ
  pub protocol : ℕ

-- The static variables: `rules[MAX_RULES]`, `rule_count` and `firewall_enabled`.
pub record Firewall : Type 0 where
  pub rules : List Rule
  pub rule_count : ℕ
  pub enabled : Bool

abbrev pub max_rules : ℕ
max_rules = 256

abbrev pub rule_allow : ℕ
rule_allow = 1

abbrev pub rule_deny : ℕ
rule_deny = 0

-- `added` is the 0 and `table_full` the -1 of `firewall_add_rule`.
pub data Status : Type 0 where
  added table_full : Status

-- `firewall_init` does not erase the old entries of the table.
pub init : Firewall → Firewall
init f = record f { rule_count = 0; enabled = true }

pub add_rule : Firewall → Rule → Status × Firewall
add_rule f r =
    if ltb f.rule_count max_rules
    then (added, record f { rules = set f.rules f.rule_count r; rule_count = f.rule_count + 1 })
    else (table_full, f)

-- The condition of the `if` in the loop of `firewall_check_packet`.
pub matches : Rule → Packet → Bool
matches r p =
    (r.src_ip == p.src_ip || r.src_ip == 0)
    && (r.dst_ip == p.dst_ip || r.dst_ip == 0)
    && (r.src_port == p.src_port || r.src_port == 0)
    && (r.dst_port == p.dst_port || r.dst_port == 0)
    && (r.protocol == p.protocol || r.protocol == 0)

-- The loop at index `i`, with `rule_count - i` rounds left. `none` is a read outside the table.
pub check_from : List Rule → Packet → ℕ → ℕ → Option ℕ
check_from rules p zero i = some rule_deny
check_from rules p (suc left) i =
    let rest = check_from rules p left (i + 1) in
    elim (get_elem? rules i) [ none ↦ none | some r ↦ if matches r p then some r.action else rest ]

pub check_packet : Firewall → Packet → Option ℕ
check_packet f p = if f.enabled then check_from f.rules p f.rule_count 0 else some rule_allow

pub enable : Firewall → Firewall
enable f = record f { enabled = true }

pub disable : Firewall → Firewall
disable f = record f { enabled = false }
