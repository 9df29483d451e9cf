-- ===== src/Security/Levels.antt =====
-- The levels of KluxOS/src/security/security.c.
use klux_os.Security.{Settings, Step, set_level, settings_of, rules_of, add_firewall_rule}
use klux_os.Base.{leb, List, ◌≡◌, ◌<◌, ◌≤◌, ℕ, zero, suc, refl, arith, none, some}

-- A level above 4 is refused; after any other, the level is kept, auditing and encryption are on
-- exactly from level 1 on, and the packet filter and access control from level 2 on, whatever was
-- on before.
pub set_level_lem :
    (level : ℕ) (s : Settings)
    → level ≤ 4
    → (steps : List Step) × (s' : Settings) × (set_level level s ≡ some (steps, s'))
      × (s'.security_level ≡ level)
      × (s'.enable_audit ≡ leb 1 level)
      × (s'.enable_encryption ≡ leb 1 level)
      × (s'.enable_firewall ≡ leb 2 level)
      × (s'.enable_access_control ≡ leb 2 level)
unfolding set_level settings_of rules_of
set_level_lem zero s fits = (_, _, refl, refl, refl, refl, refl, refl)
set_level_lem (suc zero) s fits = (_, _, refl, refl, refl, refl, refl, refl)
set_level_lem (suc (suc zero)) s fits = (_, _, refl, refl, refl, refl, refl, refl)
set_level_lem (suc (suc (suc zero))) s fits = (_, _, refl, refl, refl, refl, refl, refl)
set_level_lem (suc (suc (suc (suc zero)))) s fits = (_, _, refl, refl, refl, refl, refl, refl)
set_level_lem (suc (suc (suc (suc (suc n))))) s fits = absurd (omega arith)

-- After level 0 or 1, no rule can be added.
pub add_firewall_rule-low :
    (level port action : ℕ) → level < 2 → add_firewall_rule port action (settings_of level) ≡ none
unfolding add_firewall_rule settings_of
add_firewall_rule-low zero port action low = refl
add_firewall_rule-low (suc zero) port action low = refl
add_firewall_rule-low (suc (suc n)) port action low = absurd (omega arith)
