-- ===== src/Persistence/Concurrent/TempPath.antt =====
-- No two saves have the same temporary path, and none has the path of the snapshot.
use cache_x.Base.{ℕ, suc, ◌+◌, ◌≡◌, ◌≢◌, ap, [], ◌++◌, Bytes, codes, length, length-append, arith}
use mathlib.Core.List.{append-nil, append_cancel_left}
use cache_x.Decimal.{print_ℕ}
use cache_x.Decimal.Laws.{read_magnitude-print_ℕ}
use cache_x.Persistence.Concurrent.{unique_temp_path}

print_ℕ-injective : (i j : ℕ) → print_ℕ i ≡ print_ℕ j → i ≡ j
print_ℕ-injective i j h =
    let limit = suc (i + j) in
    let first = read_magnitude-print_ℕ limit i [] (omega arith) tt in
    let second = read_magnitude-print_ℕ limit j [] (omega arith) tt in
    ground (arith, first, second, append-nil (print_ℕ i), append-nil (print_ℕ j), h)

pub unique_temp_path-ne :
    (path : Bytes) (pid i j : ℕ) → i ≢ j → unique_temp_path path pid i ≢ unique_temp_path path pid j
unfolding unique_temp_path
unique_temp_path-ne path pid i j ne = λ e.
    let below = append_cancel_left path _ _ e in
    let tail = append_cancel_left (codes ".tmp.") _ _ below in
    let number = append_cancel_left (print_ℕ pid) _ _ tail in
    ne (print_ℕ-injective i j (append_cancel_left (codes ".") _ _ number))

pub unique_temp_path-apart : (path : Bytes) (pid i : ℕ) → unique_temp_path path pid i ≢ path
unfolding unique_temp_path
unique_temp_path-apart path pid i = λ e. absurd (
    omega (
      arith,
      ap length e,
      length-append path (codes ".tmp." ++ (print_ℕ pid ++ (codes "." ++ print_ℕ i))),
    ))
