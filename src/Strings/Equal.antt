-- ===== src/Strings/Equal.antt =====
-- `==` of `std::string`, which the sources test and by which `std::map` finds a key.
use tcp_udp_proxy.Prelude.{Bool, true, false, ◌&&◌, ◌==◌, ◌↔◌, ◌≡◌, [], ◌∷◌, arith}
use tcp_udp_proxy.Prelude.Maps.{Eq}
use tcp_udp_proxy.Strings.Tokens.{String}

abbrev pub equal : String → String → Bool
equal [] [] = true
equal [] (d ∷ t) = false
equal (c ∷ s) [] = false
equal (c ∷ s) (d ∷ t) = c == d && equal s t

pub equal_iff : (s t : String) → (equal s t ≡ true) ↔ (s ≡ t)
equal_iff [] [] = ground arith
equal_iff [] (d ∷ t) = ground arith
equal_iff (c ∷ s) [] = ground arith
equal_iff (c ∷ s) (d ∷ t) = ground (arith, equal_iff s t)

instance abbrev pub string_eq : Eq String
string_eq = record { beq = equal; beq_iff = equal_iff }
