-- ===== src/Utils/Laws.antt =====
-- `hex_to_bytes` after `bytes_to_hex`.
use text.Mathlib.TextLemmas.{nil-append, cons-append}
use zkp_rollup.Base.{◌<◌, ◌≡◌, ap, String, Bool-cases, inl, inr, All}
use text.Mathlib.Text.{starts_with}
use text.Mathlib.TextEquality.{starts_with_iff}
use zkp_rollup.Python.Result.{ok}
use zkp_rollup.Python.Bytes.{Bytes, codes, hex}
use zkp_rollup.Python.Bytes.Laws.{from_hex-hex, hex_ne_x}
use zkp_rollup.Utils.{hex_to_bytes, bytes_to_hex, add_0x_prefix}

-- What `bytes_to_hex` writes, `hex_to_bytes` reads back: every byte string comes back unchanged.
pub hex_to_bytes-bytes_to_hex :
    (bs : Bytes) → All (λ b. b < 256) bs → hex_to_bytes (bytes_to_hex bs) ≡ ok bs
unfolding hex_to_bytes bytes_to_hex
hex_to_bytes-bytes_to_hex bs h =
    rw (cons-append "0" "x" (hex bs), cons-append "x" "" (hex bs), nil-append) (from_hex-hex bs h)

-- What `add_0x_prefix` makes of the text of bytes, `hex_to_bytes` reads back: every byte string comes back
-- unchanged, since no such text starts with `0x` by itself.
pub hex_to_bytes-add_0x_prefix :
    (bs : Bytes) → All (λ b. b < 256) bs → hex_to_bytes (add_0x_prefix (hex bs)) ≡ ok bs
unfolding add_0x_prefix bytes_to_hex
hex_to_bytes-add_0x_prefix bs h = elim (Bool-cases (starts_with (hex bs) "0x")) [
  | inl e ↦
      let (u, joined) = (starts_with_iff (hex bs) "0x").0 e in
      let prefixed : String.◌∷◌ "0" (String.◌∷◌ "x" u) ≡ hex bs =
        rw (cons-append "0" "x" u, cons-append "x" "" u, nil-append) at joined in
      absurd (hex_ne_x bs b'0' (codes u) h (ap codes prefixed))
  | inr e ↦ rw e (hex_to_bytes-bytes_to_hex bs h)
]
