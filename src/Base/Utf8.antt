-- ===== src/Base/Utf8.antt =====
-- Which byte strings `str(data, encoding='utf-8')` accepts.
use hat_drivers.Base.Tests.{ltb, leb, ◌==◌, if◌then◌else◌}
use Prim.Native.Nat.{ℕ, zero, suc}
use mathlib.Core.Bool.{Bool, true, false, ◌&&◌}
use mathlib.Core.List.{List, [], ◌∷◌}

-- What the first byte of a character says: how many bytes follow, and the bounds of the next one.
-- Overlong forms, surrogates and characters above U+10FFFF are excluded.
pub record Lead : Type 0 where
  pub good : Bool
  pub count : ℕ
  pub low : ℕ
  pub high : ℕ

abbrev follows : ℕ → ℕ → ℕ → Lead
follows n l h = record { good = true; count = n; low = l; high = h }

unfoldable pub lead : ℕ → Lead
lead x =
    if ltb x 0x80
    then follows 0 0x80 0xBF
    else if ltb x 0xC2
    then record { good = false; count = 0; low = 0; high = 0 }
    else if ltb x 0xE0
    then follows 1 0x80 0xBF
    else if x == 0xE0
    then follows 2 0xA0 0xBF
    else if x == 0xED
    then follows 2 0x80 0x9F
    else if ltb x 0xF0
    then follows 2 0x80 0xBF
    else if x == 0xF0
    then follows 3 0x90 0xBF
    else if ltb x 0xF4
    then follows 3 0x80 0xBF
    else if x == 0xF4
    then follows 3 0x80 0x8F
    else record { good = false; count = 0; low = 0; high = 0 }

-- `n` bytes of a character are still missing, the first of them between `low` and `high`.
unfoldable pub utf8_from : ℕ → ℕ → ℕ → List ℕ → Bool
unfolding lead
utf8_from zero low high [] = true
utf8_from (suc n) low high [] = false
utf8_from zero low high (x ∷ xs) = let l = lead x in l.good && utf8_from l.count l.low l.high xs
utf8_from (suc n) low high (x ∷ xs) = (leb low x && leb x high) && utf8_from n 0x80 0xBF xs

unfoldable pub is_utf8 : List ℕ → Bool
unfolding utf8_from
is_utf8 bs = utf8_from 0 0 0 bs
