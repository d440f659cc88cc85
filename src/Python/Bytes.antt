-- ===== src/Python/Bytes.antt =====
-- `bytes` as lists of numbers below 256: `int.to_bytes(n, 'little')`, `bytes.fromhex`,
-- `bytes.hex`, and texts as their code points.
pub mod Laws
use Prim.Native.Char.{Char, code}
use zkp_rollup.Base.{
  ℕ, zero, suc, ◌+◌, ◌-◌, ◌*◌, ◌/◌, ◌%◌, ◌^◌, String, Bool, ◌&&◌, ◌||◌, List, [], ◌∷◌, Option, none,
  some, ltb, leb, eqb, if◌then◌else◌,
}
use zkp_rollup.Base.Int.{ℤ, pos, negsuc}
use zkp_rollup.Python.Result.{Result, ok, raised, value_error, overflow_error, ◌>>=◌}

abbrev pub Bytes : Type 0
Bytes = List ℕ

-- The code points of a text.
abbrev pub codes : String → List ℕ
codes String.[] = []
codes (String.◌∷◌ c s) = code c ∷ codes s

-- The lowest `k` base-256 digits of `n`, the lowest first, and the number that digits stand for.
unfoldable pub le_bytes : ℕ → ℕ → Bytes
le_bytes zero n = []
le_bytes (suc k) n = (n % 256) ∷ le_bytes k (n / 256)

unfoldable pub from_le : Bytes → ℕ
from_le [] = 0
from_le (b ∷ bs) = b + 256 * from_le bs

-- `n.to_bytes(k, 'little')`
unfoldable pub to_bytes : ℕ → ℤ → Result Bytes
unfolding le_bytes
to_bytes k (pos n) = if ltb n (256 ^ k) then ok (le_bytes k n) else raised overflow_error
to_bytes k (negsuc n) = raised overflow_error

-- The value of a hexadecimal digit of either case.
unfoldable pub hex_digit : ℕ → Option ℕ
hex_digit c =
    if leb b'0' c && leb c b'9'
    then some (c - b'0')
    else if leb b'a' c && leb c b'f'
    then some (c - b'a' + 10)
    else if leb b'A' c && leb c b'F'
    then some (c - b'A' + 10)
    else none

-- ASCII whitespace, which `bytes.fromhex` skips between bytes.
unfoldable pub is_space : ℕ → Bool
is_space c = eqb c b' ' || leb 9 c && leb c 13

hex_byte : Option ℕ → Option ℕ → Result Bytes → Result Bytes
hex_byte (some hi) (some lo) rest = do bs ← rest; ok ((hi * 16 + lo) ∷ bs)
hex_byte (some hi) none rest = raised value_error
hex_byte none lo rest = raised value_error

-- `bytes.fromhex`, on the code points of its argument
unfoldable pub from_hex : List ℕ → Result Bytes
unfolding hex_digit is_space hex_byte
from_hex [] = ok []
from_hex (c ∷ []) = if is_space c then ok [] else raised value_error
from_hex (c ∷ d ∷ cs) =
    let skip = from_hex (d ∷ cs) in
    let byte = hex_byte (hex_digit c) (hex_digit d) (from_hex cs) in
    if is_space c then skip else byte

hex_char : ℕ → Char
hex_char n =
    if eqb n 0
    then "0"
    else if eqb n 1
    then "1"
    else if eqb n 2
    then "2"
    else if eqb n 3
    then "3"
    else if eqb n 4
    then "4"
    else if eqb n 5
    then "5"
    else if eqb n 6
    then "6"
    else if eqb n 7
    then "7"
    else if eqb n 8
    then "8"
    else if eqb n 9
    then "9"
    else if eqb n 10
    then "a"
    else if eqb n 11
    then "b"
    else if eqb n 12
    then "c"
    else if eqb n 13
    then "d"
    else if eqb n 14
    then "e"
    else "f"

-- `data.hex()`
unfoldable pub hex : Bytes → String
unfolding hex_char
hex [] = ""
hex (b ∷ bs) = String.◌∷◌ (hex_char (b / 16)) (String.◌∷◌ (hex_char (b % 16)) (hex bs))
