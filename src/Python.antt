-- ===== src/Python.antt =====
-- The part of Python that the program leans on: exceptions (Python/Result.antt), methods that
-- mutate an object and may raise (Python/Exec.antt), indexing, and byte strings
-- (Python/Bytes.antt, with its laws in Python/Bytes/Laws.antt).
pub mod Float
pub mod Result
pub mod Exec
pub mod Bytes
use zkp_rollup.Base.{suc, ◌-◌, List, Option, none, ltb, length, get_elem?, if◌then◌else◌}
use zkp_rollup.Base.Int.{ℤ, pos, negsuc}

-- `xs[i]`: a negative index counts from the end, and an index out of range raises.
abbrev pub get_item? {ℓ} : {A : Type ℓ} → List A → ℤ → Option A
get_item? xs (pos i) = get_elem? xs i
get_item? xs (negsuc k) = if ltb k (length xs) then get_elem? xs (length xs - suc k) else none
