-- ===== src/Misc/Names.antt =====
-- `filter_str` and `valid_nick`.
use tox_relayer.Prelude.{
  ℕ, suc, ◌≡◌, refl, ap, Bool, true, false, not, ◌&&◌, List, [], ◌∷◌, arith, ◌==◌, length, ap₂,
}
use tox_relayer.Text.{has_byte}
use tox_relayer.Misc.{is_valid_char, filter_str, valid_nick, nick_loop}

-- No byte that a single line must not hold.
unfoldable pub clean : List ℕ → Bool
clean [] = true
clean (c ∷ cs) = (is_valid_char c && not (c == 0)) && clean cs

-- Filtering leaves no slash, line end, tab or NUL, keeps the length, and changes nothing the second
-- time.
pub filter_str-clean :
    (s : List ℕ)
    → (clean (filter_str s) ≡ true)
      × (length (filter_str s) ≡ length s)
      × (filter_str (filter_str s) ≡ filter_str s)
unfolding filter_str clean
filter_str-clean [] = (refl, refl, refl)
filter_str-clean (c ∷ cs) =
    let (ih, len, again) = filter_str-clean cs in
    (ground (arith, ih), ap suc len, ap₂ ◌∷◌ (ground arith) again)

nick_loop-filter_str :
    (nick : List ℕ) → nick_loop nick ≡ true → has_byte 0 nick ≡ false → filter_str nick ≡ nick
unfolding filter_str nick_loop has_byte
nick_loop-filter_str [] h z = refl
nick_loop-filter_str (c ∷ cs) h z =
    ap₂ ◌∷◌ (ground (arith, h, z)) (nick_loop-filter_str cs (ground (arith, h)) (ground (arith, z)))

-- Filtering leaves a valid name as it is.
pub valid_nick-filter_str :
    (nick : List ℕ) → valid_nick nick ≡ true → has_byte 0 nick ≡ false → filter_str nick ≡ nick
unfolding valid_nick
valid_nick-filter_str nick h z = nick_loop-filter_str nick (ground (arith, h)) z
