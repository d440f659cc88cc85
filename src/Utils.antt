-- ===== src/Utils.antt =====
-- sequencer/src/utils.py: hexadecimal text. `generate_random_id` and `get_current_timestamp` are
-- arguments of the functions that call them.
pub mod Laws
pub mod Message
use text.Mathlib.Text.{starts_with}
use Prim.Native.String.{◌++◌ as ◌<>◌}
use zkp_rollup.Base.{ℕ, ◌≡◌, String, ◌&&◌, List, [], ◌∷◌, eqb, if◌then◌else◌}
use zkp_rollup.Python.Result.{Result}
use zkp_rollup.Python.Bytes.{Bytes, codes, from_hex, hex}

-- `if hex_str.startswith("0x"): hex_str = hex_str[2:]`
unfoldable pub without_0x : List ℕ → List ℕ
without_0x [] = []
without_0x (c ∷ []) = c ∷ []
without_0x (c ∷ d ∷ cs) = if eqb c b'0' && eqb d b'x' then cs else c ∷ d ∷ cs

unfoldable pub hex_to_bytes : String → Result Bytes
unfolding without_0x
hex_to_bytes hex_str = from_hex (without_0x (codes hex_str))

unfoldable pub bytes_to_hex : Bytes → String
bytes_to_hex bs = "0x" <> hex bs

unfoldable pub add_0x_prefix : String → String
add_0x_prefix s = if starts_with s "0x" then s else "0x" <> s
