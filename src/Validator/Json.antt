-- ===== src/Validator/Json.antt =====
-- The part of Python's `json.dumps` and `str` that the validator uses: an object of texts, integers
-- and None, written without spaces and in ASCII; a text is its list of code points.
use zkp_rollup.Base.{
  ℕ, zero, suc, ◌+◌, ◌-◌, ◌/◌, ◌%◌, List, [], ◌∷◌, ◌++◌, eqb, leb, ltb, if◌then◌else◌, ◌&&◌,
}
use zkp_rollup.Base.Int.{ℤ, pos, negsuc}
use zkp_rollup.Python.Bytes.{Bytes, codes}

pub data Json : Type 0 where
  null : Json
  text : List ℕ → Json
  number : ℤ → Json

-- The decimal digits of `n` before `acc`. A number is less than its successor, which is fuel enough.
pub digits_from : ℕ → ℕ → Bytes → Bytes
digits_from zero n acc = acc
digits_from (suc fuel) n acc =
    let digits = (48 + n % 10) ∷ acc in
    let more = digits_from fuel (n / 10) digits in if eqb (n / 10) 0 then digits else more

unfoldable pub str_nat : ℕ → Bytes
unfolding digits_from
str_nat n = digits_from (suc n) n []

-- `str(n)`
unfoldable pub str_int : ℤ → Bytes
str_int (pos n) = str_nat n
str_int (negsuc n) = b'-' ∷ str_nat (suc n)

hex_code : ℕ → ℕ
hex_code n = if ltb n 10 then 48 + n else 87 + n

-- `\uXXXX`
unicode_escape : ℕ → Bytes
unfolding hex_code
unicode_escape c =
    0x5c
    ∷ b'u'
    ∷ hex_code (c / 4096)
    ∷ hex_code (c / 256 % 16)
    ∷ hex_code (c / 16 % 16)
    ∷ hex_code (c % 16)
    ∷ []

-- One character in a text; above 0xffff it is written as a pair of surrogates.
pub escape : ℕ → Bytes
unfolding unicode_escape
escape c =
    if eqb c 0x22
    then 0x5c ∷ 0x22 ∷ []
    else if eqb c 0x5c
    then 0x5c ∷ 0x5c ∷ []
    else if eqb c 10
    then 0x5c ∷ b'n' ∷ []
    else if eqb c 13
    then 0x5c ∷ b'r' ∷ []
    else if eqb c 9
    then 0x5c ∷ b't' ∷ []
    else if eqb c 12
    then 0x5c ∷ b'f' ∷ []
    else if eqb c 8
    then 0x5c ∷ b'b' ∷ []
    else if leb 32 c && ltb c 127
    then c ∷ []
    else if ltb c 0x10000
    then unicode_escape c
    else unicode_escape (0xd800 + (c - 0x10000) / 1024)
      ++ unicode_escape (0xdc00 + (c - 0x10000) % 1024)

escape_all : List ℕ → Bytes
unfolding escape
escape_all [] = []
escape_all (c ∷ cs) = escape c ++ escape_all cs

pub quoted : List ℕ → Bytes
unfolding escape_all
quoted s = 0x22 ∷ (escape_all s ++ 0x22 ∷ [])

pub value : Json → Bytes
unfolding quoted
value null = codes "null"
value (text s) = quoted s
value (number n) = str_int n

pub members : List (List ℕ × Json) → Bytes
unfolding value
members [] = []
members ((k, j) ∷ []) = quoted k ++ b':' ∷ value j
members ((k, j) ∷ m ∷ ms) = quoted k ++ b':' ∷ value j ++ b',' ∷ members (m ∷ ms)

-- The object, whose keys the caller gives in sorted order.
unfoldable pub dumps : List (List ℕ × Json) → Bytes
unfolding members str_int str_nat
dumps ms = b'{' ∷ (members ms ++ b'}' ∷ [])
