-- ===== src/Keyboard/Keymaps.antt =====
-- The four keymaps of KluxOS/src/drivers/keyboard.c: the character of each of the 128 keys. The
-- initialisers stop early, and C fills the rest with 0.
use klux_os.Base.{ℕ, List, ◌∷◌, replicate}

abbrev pub us_keymap_lower : List ℕ
us_keymap_lower =
    0
    ∷ 27
    ∷ 49
    ∷ 50
    ∷ 51
    ∷ 52
    ∷ 53
    ∷ 54
    ∷ 55
    ∷ 56
    ∷ 57
    ∷ 48
    ∷ 45
    ∷ 61
    ∷ 8
    ∷ 9
    ∷ 113
    ∷ 119
    ∷ 101
    ∷ 114
    ∷ 116
    ∷ 121
    ∷ 117
    ∷ 105
    ∷ 111
    ∷ 112
    ∷ 91
    ∷ 93
    ∷ 13
    ∷ 0
    ∷ 97
    ∷ 115
    ∷ 100
    ∷ 102
    ∷ 103
    ∷ 104
    ∷ 106
    ∷ 107
    ∷ 108
    ∷ 59
    ∷ 39
    ∷ 96
    ∷ 0
    ∷ 92
    ∷ 122
    ∷ 120
    ∷ 99
    ∷ 118
    ∷ 98
    ∷ 110
    ∷ 109
    ∷ 44
    ∷ 46
    ∷ 47
    ∷ 0
    ∷ 42
    ∷ 0
    ∷ 32
    ∷ replicate 70 0

abbrev pub us_keymap_upper : List ℕ
us_keymap_upper =
    0
    ∷ 27
    ∷ 33
    ∷ 64
    ∷ 35
    ∷ 36
    ∷ 37
    ∷ 94
    ∷ 38
    ∷ 42
    ∷ 40
    ∷ 41
    ∷ 95
    ∷ 43
    ∷ 8
    ∷ 9
    ∷ 81
    ∷ 87
    ∷ 69
    ∷ 82
    ∷ 84
    ∷ 89
    ∷ 85
    ∷ 73
    ∷ 79
    ∷ 80
    ∷ 123
    ∷ 125
    ∷ 13
    ∷ 0
    ∷ 65
    ∷ 83
    ∷ 68
    ∷ 70
    ∷ 71
    ∷ 72
    ∷ 74
    ∷ 75
    ∷ 76
    ∷ 58
    ∷ 34
    ∷ 126
    ∷ 0
    ∷ 124
    ∷ 90
    ∷ 88
    ∷ 67
    ∷ 86
    ∷ 66
    ∷ 78
    ∷ 77
    ∷ 60
    ∷ 62
    ∷ 63
    ∷ 0
    ∷ 42
    ∷ 0
    ∷ 32
    ∷ replicate 70 0

abbrev pub tr_keymap_lower : List ℕ
tr_keymap_lower =
    0
    ∷ 27
    ∷ 49
    ∷ 50
    ∷ 51
    ∷ 52
    ∷ 53
    ∷ 54
    ∷ 55
    ∷ 56
    ∷ 57
    ∷ 48
    ∷ 42
    ∷ 45
    ∷ 8
    ∷ 9
    ∷ 113
    ∷ 119
    ∷ 101
    ∷ 114
    ∷ 116
    ∷ 121
    ∷ 117
    ∷ 105
    ∷ 111
    ∷ 112
    ∷ 103
    ∷ 117
    ∷ 13
    ∷ 0
    ∷ 97
    ∷ 115
    ∷ 100
    ∷ 102
    ∷ 103
    ∷ 104
    ∷ 106
    ∷ 107
    ∷ 108
    ∷ 115
    ∷ 105
    ∷ 34
    ∷ 0
    ∷ 44
    ∷ 122
    ∷ 120
    ∷ 99
    ∷ 118
    ∷ 98
    ∷ 110
    ∷ 109
    ∷ 111
    ∷ 99
    ∷ 46
    ∷ 0
    ∷ 42
    ∷ 0
    ∷ 32
    ∷ replicate 70 0

abbrev pub tr_keymap_upper : List ℕ
tr_keymap_upper =
    0
    ∷ 27
    ∷ 33
    ∷ 39
    ∷ 94
    ∷ 43
    ∷ 37
    ∷ 38
    ∷ 47
    ∷ 40
    ∷ 41
    ∷ 61
    ∷ 63
    ∷ 95
    ∷ 8
    ∷ 9
    ∷ 81
    ∷ 87
    ∷ 69
    ∷ 82
    ∷ 84
    ∷ 89
    ∷ 85
    ∷ 73
    ∷ 79
    ∷ 80
    ∷ 71
    ∷ 85
    ∷ 13
    ∷ 0
    ∷ 65
    ∷ 83
    ∷ 68
    ∷ 70
    ∷ 71
    ∷ 72
    ∷ 74
    ∷ 75
    ∷ 76
    ∷ 83
    ∷ 73
    ∷ 69
    ∷ 0
    ∷ 59
    ∷ 90
    ∷ 88
    ∷ 67
    ∷ 86
    ∷ 66
    ∷ 78
    ∷ 77
    ∷ 79
    ∷ 67
    ∷ 58
    ∷ 0
    ∷ 42
    ∷ 0
    ∷ 32
    ∷ replicate 70 0
