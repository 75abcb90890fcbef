-- ===== src/MiniMath.antt =====
-- cppext/minimath.h and minimath.cpp: the integer routines. `uint32_t` and `uint64_t` are natural numbers
-- below 2^32 and 2^64.
pub mod Laws
use safely.Prelude.{
  sub_u32, ◌∷◌, [], ◌*◌, ◌%◌, ◌^◌, ◌+◌, ◌-◌, ℕ, zero, suc, ◌/◌, Bool, true, false, List, ltb, leb,
  ◌==◌, if◌then◌else◌, u32_mod, get_or, length,
}
use safely.Prelude.Int.{ℤ, pos, negsuc}

-- the loop of `log2Exponent`, from an exponent on, for a number of rounds
unfoldable log2_from : ℕ → ℕ → ℕ → ℕ
log2_from zero exp number = 32
log2_from (suc rounds) exp number =
    let rest = log2_from rounds (exp + 1) (number / 2) in if ltb 0 number then rest else exp

pub log2_exponent : ℕ → ℕ
unfolding log2_from
log2_exponent number = log2_from 32 0 number

-- `rpepow10` at unsigned values of a width: the loop, for a number of rounds; `n` is an `unsigned`, so
-- that 32 are enough
pow10_loop : ℕ → ℕ → ℕ → ℕ → ℕ → ℕ
pow10_loop width zero n result based = result
pow10_loop width (suc rounds) n result based =
    let result' = if n % 2 == 1 then (result * based) % 2 ^ width else result in
    let rest = pow10_loop width rounds (n / 2) result' ((based * based) % 2 ^ width) in
    if n == 0 then result else rest

rpepow10 : ℕ → ℕ → ℕ
rpepow10 width n = pow10_loop width 32 n 1 10

-- the entries that `pow10Table` makes: powers from one on, a number of them
pow10_table : ℕ → ℕ → ℕ → List ℕ
pow10_table width power zero = []
pow10_table width power (suc entries) = rpepow10 width power ∷ pow10_table width (power + 1) entries

-- `Decimal1` and `Decimal2`. The recursion of the template ends where the index is ten and the bias, and
-- starts at 0 whatever the bias is: the second table has twenty entries.
unfoldable pub decimal1 : List ℕ
unfolding pow10_table rpepow10 pow10_loop
decimal1 = pow10_table 32 0 10

pub decimal2 : List ℕ
decimal2 = pow10_table 64 10 20

unfoldable pub i32_pow10 : ℕ → ℕ
i32_pow10 power = if ltb power 10 then get_or decimal1 power 0 else 0

unfoldable pub i64_pow10 : ℕ → ℕ
i64_pow10 power =
    if leb 10 power
    then (if ltb (power - 10) 20 then get_or decimal2 (power - 10) 0 else 0)
    else get_or decimal1 power 0

-- the loops of `ilog10`, downwards; -1 where no entry is small enough
unfoldable pub search_down : List ℕ → ℕ → ℕ → ℤ
search_down table zero value = negsuc 0
search_down table (suc log) value =
    let rest = search_down table log value in
    if leb (get_or table log 0) value then pos log else rest

-- `ilog10(uint32_t)`
unfoldable pub ilog10_u32 : ℕ → ℤ
ilog10_u32 value = search_down decimal1 10 value

-- `ilog10(uint64_t)`: the answer of its loop, or that for the low 32 bits
unfoldable found_or_low : ℤ → ℕ → ℤ
found_or_low (pos log) value = pos (log + 10)
found_or_low (negsuc _) value = ilog10_u32 (value % u32_mod)

pub ilog10_u64 : ℕ → ℤ
unfolding found_or_low
ilog10_u64 value = found_or_low (search_down decimal2 20 value) value

-- `rate`, `half` and `quanta`, at unsigned values of a width
pub rate : ℕ → ℕ → ℕ → ℕ
rate width num denom =
    if denom == 0 then (if num == 0 then 1 else 0) else (num + denom / 2) % 2 ^ width / denom

unfoldable half : ℕ → ℕ
half sum = (sum + 1) % u32_mod / 2

unfoldable pub quanta : ℕ → ℕ → ℕ → ℕ
quanta width num denom =
    if denom == 0
    then (if num == 0 then 1 else 0)
    else (num + denom + (2 ^ width - 1)) % 2 ^ width / denom

-- `keepDecimals` and `truncateDecimals`; beyond 19 digits `19 - digits` wraps
unfoldable keep_decimals : ℕ → ℕ → ℕ
keep_decimals p19 digits = rate 64 p19 (i64_pow10 (sub_u32 19 digits))

unfoldable truncate_decimals : ℕ → ℕ → ℕ
truncate_decimals p19 digits = if leb digits 19 then p19 / i64_pow10 (19 - digits) else 0

-- `revolutions`: the cycles, and what is left in the accumulator
unfoldable pub revolutions : ℕ → ℕ → ℕ × ℕ
revolutions accum length = if length == 0 then (accum, accum) else (accum / length, accum % length)
