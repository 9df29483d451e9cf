-- ===== src/Security/Data.antt =====
-- The encryption of KluxOS/src/security/security.c, through the cipher of aes.c.
use klux_os.Aes.Schedule.{ready}
use klux_os.Aes.Schedule.Expansion.{init_total, IsSchedule, IsBytes}
use klux_os.Aes.Schedule
use klux_os.Aes.{Block, Context, encrypt_block, decrypt_block}
use klux_os.Security.{
  start_audit, write_audit, start_crypto, start_firewall, add_rule, security_init, init_with,
  Settings, data_key, decrypt_data, encrypt_data, output,
}
use klux_os.Base.{[], ◌∷◌, if◌then◌else◌, ◌++◌, ◌≡◌, refl, arith, some, true, false, inl}

key-IsBytes : IsBytes data_key
key-IsBytes = omega arith

-- While encryption is on, a call encrypts its block with the schedule of the fixed key: it never
-- fails, and makes no access outside the cipher's arrays.
pub encrypt_data_lem :
    (fresh : Context) (input : Block) (s : Settings)
    → IsSchedule fresh.expanded_key
    → s.enable_encryption ≡ true
    → (ctx : Context) × (Schedule.init fresh data_key 16 ≡ some (ready ctx))
      × (encrypt_data fresh input s ≡ some (output (encrypt_block ctx input)))
      × (decrypt_data fresh false input s ≡ some (output (decrypt_block ctx input)))
      × (decrypt_data fresh true input s
          ≡ some (output (decrypt_block ctx (decrypt_block ctx input))))
unfolding encrypt_data decrypt_data
encrypt_data_lem fresh input s schedule on =
    let (ctx, set_up, _, _, _, _) =
      init_total fresh data_key 16 schedule key-IsBytes (omega arith) (inl refl) in
    (ctx, set_up, rw on (rw set_up refl), rw on (rw set_up refl), rw on (rw set_up refl))

-- The start keeps every setting, whatever the levels are: the cipher always takes the fixed key.
-- Its calls are those of the settings, in the source's order.
pub security_init_lem :
    (fresh : Context) (s : Settings)
    → IsSchedule fresh.expanded_key
    → security_init fresh s
      ≡ some (
        (if s.enable_audit then start_audit ∷ write_audit 1 ∷ [] else [])
            ++ start_crypto
              ∷ (if s.enable_firewall
                  then start_firewall ∷ add_rule 80 1 ∷ add_rule 443 1 ∷ add_rule 22 0 ∷ []
                  else []),
        s,
      )
unfolding security_init init_with
security_init_lem fresh s schedule =
    let (ctx, set_up, _, _, _, _) =
      init_total fresh data_key 16 schedule key-IsBytes (omega arith) (inl refl) in
    rw (set_up, security_init) refl
