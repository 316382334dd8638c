-- ===== src/Random/Examples.antt =====
-- Draws from a generator that counts.
use mathlib.Core.List.{Perm}
use tcp_udp_proxy.Prelude.{
  ◌+◌, ◌*◌, ◌/◌, true, ◌++◌, ℕ, ◌%◌, ℤ, pos, negsuc, ◌+ℤ◌, ◌-ℤ◌, ◌≤ℤ◌, to_int, add_int, sub_int,
  false, none, some, List, [], ◌∷◌, length, ◌≡◌, refl, arith,
}
use tcp_udp_proxy.Random.{
  Generator, Random, initial, rand, rand_int32, rem_int, int32_range, get_elem?, set, exchange,
  arrange_one, arrange_from, arrange,
}
use tcp_udp_proxy.Random.Ranges.{int32_range_bounds}
use tcp_udp_proxy.Random.Shuffle.{arrange-Perm}
use tcp_udp_proxy.Random.Unique.{set_at, repeat_flag, assign_one, assign_from, unique_assign}
use tcp_udp_proxy.Random.Unique.Numbers.{Distinct, Between}
use tcp_udp_proxy.Random.Unique.Ends.{unique_assign_ends}

methods : Unit {0}
unfolding initial rand rand_int32 rem_int int32_range get_elem? set exchange arrange_one
    arrange_from arrange to_int add_int sub_int ◌+ℤ◌ ◌-ℤ◌
methods = tt

abbrev counting : Generator
counting = record { value = λ n. n % 1000; small = λ n. omega arith }

abbrev unseeded : Random
unseeded = record { initial_flag = false; calls = 7 }

int32_range_bounds_example :
    (z : ℤ) × (t : Random) × (int32_range counting (negsuc 4) (pos 5) unseeded ≡ some (z, t))
    × (negsuc 4 ≤ℤ z)
    × (z ≤ℤ pos 5)
unfolding methods
int32_range_bounds_example =
    int32_range_bounds counting (negsuc 4) (pos 5) unseeded (omega arith, omega arith)
      (omega arith, omega arith) (omega arith)

arrange-Perm_example :
    (b : List ℕ) × (t : Random) × (arrange counting (10 ∷ 20 ∷ 30 ∷ []) 3 unseeded ≡ some (b, t))
    × Perm b (10 ∷ 20 ∷ 30 ∷ [])
    × (length b ≡ 3)
unfolding methods
arrange-Perm_example =
    arrange-Perm counting 3 (10 ∷ 20 ∷ 30 ∷ []) unseeded (omega arith) (omega arith)

-- Over all the numbers that an int holds the divisor wraps around to 0.
full_range : int32_range counting (negsuc 2147483647) (pos 2147483647) unseeded ≡ none
unfolding methods
full_range = refl

-- A generator that gives all its numbers in turn, and the same number again each 2 ^ 31 calls.
abbrev in_turn : Generator
in_turn = record { value = λ n. n % 2147483648; small = λ n. omega arith }

abbrev repeating : Generator
repeating = record { value = λ n. n / 2 % 1000; small = λ n. omega arith }

assignment : Unit {0}
unfolding methods set_at repeat_flag assign_one assign_from unique_assign
assignment = tt

unique_assign_ends_example :
    (rounds : ℕ) × (new : List ℤ) × (t : Random) × ((more : ℕ)
      → unique_assign
          (rounds + more)
          in_turn
          (pos 7 ∷ pos 7 ∷ pos 9 ∷ [])
          (pos 2)
          (negsuc 0)
          (pos 1)
          unseeded
        ≡ some (true, new ++ pos 9 ∷ [], t))
    × Distinct new
    × Between (negsuc 0) (pos 1) new
    × (length new ≡ 2)
unfolding assignment
unique_assign_ends_example =
    unique_assign_ends in_turn (negsuc 0) (pos 1) (pos 7 ∷ pos 7 ∷ []) (pos 9 ∷ []) unseeded
      (λ n v l. (v + 2147483647 * n, omega (arith, l))) (omega arith, omega arith)
      (omega arith, omega arith) (omega arith) (omega arith) (omega arith)

-- A number that comes twice is drawn again.
drawn_again :
    unique_assign 3 repeating (pos 7 ∷ pos 7 ∷ []) (pos 2) (pos 0) (pos 1) unseeded
    ≡ some (true, pos 0 ∷ pos 1 ∷ [], record { initial_flag = true; calls = 3 })
unfolding assignment
drawn_again = refl

-- Over all the numbers that an int holds the loop_size of them wraps around to 0, and is too small.
full_refused :
    unique_assign 3 repeating (pos 7 ∷ []) (pos 1) (negsuc 2147483647) (pos 2147483647) unseeded
    ≡ some (false, pos 7 ∷ [], unseeded)
unfolding assignment
full_refused = refl
