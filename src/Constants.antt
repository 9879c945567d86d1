-- ===== src/Constants.antt =====
-- include/constants.hpp: the numbers of the signal types and the sizes.
use flocksy.Prelude.{ℕ}

abbrev pub f_sigtype_life : ℕ
f_sigtype_life = 0

abbrev pub f_sigtype_pub : ℕ
f_sigtype_pub = 1

abbrev pub f_sigtype_sub : ℕ
f_sigtype_sub = 2

abbrev pub f_sigtype_inotify : ℕ
f_sigtype_inotify = 3

abbrev pub f_sigtype_fsm : ℕ
f_sigtype_fsm = 4

abbrev pub f_siglife_interrupt : ℕ
f_siglife_interrupt = 2

abbrev pub f_generic_hash_len : ℕ
f_generic_hash_len = 64

abbrev pub f_minimum_hb_width : ℕ
f_minimum_hb_width = 256
