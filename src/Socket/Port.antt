-- ===== src/Socket/Port.antt =====
-- Which ports are accepted.
use mathlib.Core.List.{append-nil}
use cache_x.Base.{ℕ, ◌^◌, ◌≤◌, ◌<◌, ◌≡◌, ◌↔◌, [], ◌∷◌, some, Bytes, arith, Option-cases, inl, inr}
use cache_x.Decimal.{print_ℕ, read_magnitude}
use cache_x.Decimal.Laws.{read_magnitude-print_ℕ}
use cache_x.Decimal.Numeral.{IsNumeral, read_magnitude-eq_iff}
use cache_x.Socket.{parse_port}

-- Every port is read back as it is printed.
pub parse_port-print_ℕ : (port : ℕ) → port ≤ 65535 → parse_port (print_ℕ port) ≡ some port
unfolding parse_port
parse_port-print_ℕ port h =
    let read = read_magnitude-print_ℕ (2 ^ 64) port [] (omega arith) tt in
    ground (arith, append-nil (print_ℕ port), read)

-- A text is a port if and only if it is digits from its start to its end, at least one, and their
-- value is at most 65535.
pub parse_port-eq_iff :
    (text : Bytes) (port : ℕ) → (parse_port text ≡ some port) ↔ IsNumeral 65536 text port
unfolding parse_port
parse_port-eq_iff text port = (to, from)
  where
    to : parse_port text ≡ some port → IsNumeral 65536 text port
    to h = elim (Option-cases (read_magnitude (2 ^ 64) text)) [
      | inl e ↦ absurd (ground (arith, h, e))
      | inr ((v, d ∷ ds), e) ↦ absurd (ground (arith, h, e))
      | inr ((v, []), e) ↦
          let same : v ≡ port = ground (arith, h, e) in
          let small : port < 65536 = ground (arith, h, e) in
          let (ne, all, value, _) = (read_magnitude-eq_iff (2 ^ 64) text v).0 e in
          (ne, all, rw same at value, small)
    ]

    from : IsNumeral 65536 text port → parse_port text ≡ some port
    from (ne, all, value, small) =
        let read = (read_magnitude-eq_iff (2 ^ 64) text port).1 (ne, all, value, omega arith) in
        ground (arith, read, small)
