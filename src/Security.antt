-- ===== src/Security.antt =====
-- KluxOS/src/security/security.c: the security settings, and what they switch on.
pub mod Levels
pub mod Data
use klux_os.Aes.Schedule.{ready, bad_size}
use klux_os.Aes.{decrypt_block, encrypt_block, Block, Context}
use klux_os.Aes.Schedule
use klux_os.Base.{
  ltb, Option, ◌++◌, ◌==◌, Bool, List, ℕ, zero, suc, refl, arith, [], ◌∷◌, none, some, true, false,
  if◌then◌else◌,
}

-- `security_settings_t`
pub record Settings : Type 0 where
  pub security_level : ℕ
  pub enable_audit : Bool
  pub enable_firewall : Bool
  pub enable_access_control : Bool
  pub enable_encryption : Bool

-- `security_config` at the start.
abbrev pub default_settings : Settings
default_settings = record {
  security_level = 2;
  enable_audit = true;
  enable_firewall = true;
  enable_access_control = true;
  enable_encryption = true;
}

-- The calls into the other parts, in order. The declarations of `firewall_add_rule` and `audit_log`
-- in this file are not those of their own files.
pub data Step : Type 0 where
  start_audit : Step
  write_audit : (severity : ℕ) → Step
  start_crypto : Step
  start_firewall : Step
  add_rule : (port action : ℕ) → Step

abbrev pub switched : (level : ℕ) (audit firewall access encryption : Bool) → Settings
switched level audit firewall access encryption = record {
  security_level = level;
  enable_audit = audit;
  enable_firewall = firewall;
  enable_access_control = access;
  enable_encryption = encryption;
}

-- The settings and the rules of a level from 0 to 4.
unfoldable pub settings_of : (level : ℕ) → Settings
settings_of level =
    if level == 0
    then switched level false false false false
    else if level == 1
    then switched level true false false true
    else switched level true true true true

unfoldable pub rules_of : (level : ℕ) → List Step
rules_of level =
    if level == 3
    then add_rule 0 0 ∷ []
    else if level == 4
    then add_rule 0 0 ∷ add_rule 443 1 ∷ []
    else []

-- The level is one byte; none for -1.
unfoldable pub set_level : (level : ℕ) → Settings → Option (List Step × Settings)
set_level level s =
    let next = settings_of level in
    if ltb 4 level
    then none
    else some (rules_of level ++ (if next.enable_audit then write_audit 2 ∷ [] else []), next)

-- The key 0 to 15 that all the calls hold.
abbrev pub data_key : List ℕ
data_key =
    0x00 ∷ 0x01 ∷ 0x02 ∷ 0x03 ∷ 0x04 ∷ 0x05 ∷ 0x06 ∷ 0x07 ∷ 0x08 ∷ 0x09 ∷ 0x0A ∷ 0x0B ∷ 0x0C ∷ 0x0D
    ∷ 0x0E ∷ 0x0F ∷ []

-- What `security_init` does once it knows whether `aes_init` works.
unfoldable pub init_with : (works : Bool) → Settings → List Step × Settings
init_with works s =
    let kept : Settings = if works then s else record s { enable_encryption = false } in
    let audit = if kept.enable_audit then start_audit ∷ write_audit 1 ∷ [] else [] in
    let firewall =
      if kept.enable_firewall
      then start_firewall ∷ add_rule 80 1 ∷ add_rule 443 1 ∷ add_rule 22 0 ∷ []
      else [] in
    (audit ++ start_crypto ∷ firewall, kept)

-- None for an access outside the arrays of the cipher. `fresh` is the context on the stack.
unfoldable pub security_init : (fresh : Context) → Settings → Option (List Step × Settings)
security_init fresh s = elim (Schedule.init fresh data_key 16) [
  | none ↦ none
  | some bad_size ↦ some (init_with false s)
  | some (ready ctx) ↦ some (init_with true s)
]

-- The rule that is handed on, none for -1.
unfoldable pub add_firewall_rule : (port action : ℕ) → Settings → Option Step
add_firewall_rule port action s = if s.enable_firewall then some (add_rule port action) else none

-- What the two calls return: -1, or 0 with the block at `output`. None for an access outside the
-- arrays of the cipher. `fresh` is the context on the stack.
pub data Answer : Type 0 where
  turned_off : Answer
  output : Block → Answer

-- The length is not looked at: one block is read and written.
unfoldable pub encrypt_data : (fresh : Context) → Block → Settings → Option Answer
encrypt_data fresh input s =
    if s.enable_encryption
    then elim (Schedule.init fresh data_key 16) [
      | none ↦ none
      | some bad_size ↦ some turned_off
      | some (ready ctx) ↦ some (output (encrypt_block ctx input))
    ]
    else some turned_off

-- The block is decrypted twice; `in_place` says that the output is the input's memory, so that the
-- second time starts from the first one's answer.
unfoldable pub decrypt_data : (fresh : Context) (in_place : Bool) → Block → Settings → Option Answer
decrypt_data fresh in_place input s =
    if s.enable_encryption
    then elim (Schedule.init fresh data_key 16) [
      | none ↦ none
      | some bad_size ↦ some turned_off
      | some (ready ctx) ↦
          let once = decrypt_block ctx input in
          some (output (if in_place then decrypt_block ctx once else once))
    ]
    else some turned_off
