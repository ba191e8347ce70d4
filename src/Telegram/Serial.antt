-- ===== src/Telegram/Serial.antt =====
-- Serial numbers of src/telegram.c: 1 to 999, counted round. A C `int` is a ℤ.
pub mod Laws
use tox_relayer.Prelude.{Bool, true, ◌&&◌, ◌||◌, ◌+◌, ◌-◌, not, if◌then◌else◌, ℕ}
use tox_relayer.Prelude.Int.{ℤ, pos, ◌+ℤ◌, ◌-ℤ◌, leb_ℤ, ltb_ℤ, eqb_ℤ, rem_ℤ}

abbrev pub sn_min : ℕ
sn_min = 1

abbrev pub sn_max : ℕ
sn_max = 999

abbrev pub sn_range : ℕ
sn_range = sn_max - sn_min + 1

unfoldable pub sn_valid : ℤ → Bool
sn_valid sn = leb_ℤ (pos sn_min) sn && leb_ℤ sn (pos sn_max)

unfoldable pub sn_next : ℤ → ℤ
unfolding sn_valid ◌+ℤ◌
sn_next sn = if not (sn_valid sn) || eqb_ℤ sn (pos sn_max) then pos sn_min else sn +ℤ pos 1

unfoldable pub sn_prev : ℤ → ℤ
unfolding sn_valid ◌-ℤ◌
sn_prev sn = if not (sn_valid sn) || eqb_ℤ sn (pos sn_min) then pos sn_max else sn -ℤ pos 1

unfoldable pub sn_distance : ℤ → ℤ → ℤ
unfolding ◌+ℤ◌ ◌-ℤ◌
sn_distance from to =
    let d = rem_ℤ (to -ℤ from) sn_range in if ltb_ℤ d (pos 0) then d +ℤ pos sn_range else d
