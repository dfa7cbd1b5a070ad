-- ===== src/Cog/Key.antt =====
-- The keys of the tile cache: `cacheKeyPrefix` in front of `strconv.Itoa` of the tile's number.
pub mod Distinct
use gedtm30api.Base.{ℕ, zero, suc, ◌+◌, ◌/◌, ◌%◌, List, [], ◌∷◌, ◌++◌, ltb, if◌then◌else◌}
use gedtm30api.Base.Int.{ℤ, pos, negsuc}

-- The decimal digits of a number, as ASCII; a round drops the last digit, so n rounds are enough.
decimal_loop : ℕ → ℕ → List ℕ → List ℕ
decimal_loop zero n digits = digits
decimal_loop (suc fuel) n digits =
    let here = (b'0' + n % 10) ∷ digits in
    let rest = decimal_loop fuel (n / 10) here in if ltb n 10 then here else rest

pub decimal : ℕ → List ℕ
decimal n = decimal_loop (suc n) n []

-- `strconv.Itoa`
pub itoa : ℤ → List ℕ
itoa (pos n) = decimal n
itoa (negsuc n) = b'-' ∷ decimal (suc n)

pub cache_key : List ℕ → ℤ → List ℕ
cache_key prefix tile_num = prefix ++ itoa tile_num
