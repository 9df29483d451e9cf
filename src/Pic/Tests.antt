-- ===== src/Pic/Tests.antt =====
-- Runs of KluxOS/src/kernel/interrupt/pic.c with all lines but the keyboard's masked.
use klux_os.Pic.{Pic, clear_mask, set_mask}
use klux_os.Base.{◌≡◌, refl}

abbrev keyboard_only : Pic
keyboard_only = record { pic1_mask = 0xFD; pic2_mask = 0xFF }

keyboard_masked :
    set_mask 1 keyboard_only ≡ ((0x21, 0xFF), record { pic1_mask = 0xFF; pic2_mask = 0xFF })
unfolding set_mask
keyboard_masked = refl

slave_line :
    clear_mask 12 keyboard_only ≡ ((0xA1, 0xEF), record { pic1_mask = 0xFD; pic2_mask = 0xEF })
unfolding clear_mask
slave_line = refl
