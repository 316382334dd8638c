-- ===== src/IoServicePool/Life.antt =====
-- What holds of a pool through its life, in whatever order its methods are called.
use native.Mathlib.Nat.{suc-mod, mod-eq_of_lt, mod_self, mod-lt}
use mathlib.Core.Option.{some-injective}
use tcp_udp_proxy.Prelude.{
  ℕ, zero, suc, ◌+◌, ◌%◌, ◌≤◌, ◌<◌, ◌≡◌, ◌≢◌, refl, sym, ◌∙◌, ap, subst, ◌==◌, ==_iff, true, none,
  some, List, [], ◌∷◌, ◌++◌, map, length, if◌then◌else◌, if_elim, done, fault, assertion_failed,
  arith,
}
use tcp_udp_proxy.IoServicePool.{
  Step, at_begin, at_start, at_stop, at_finish, IoService, IoServicePool, working, new_pool, spawn,
  is_step, start, stop_service, stop, returns, all_return, join, get_io_service,
}

-- The pools of n io_services that any sequence of calls leads to, k of them calls of
-- `get_io_service` that gave one.
pub data Reach (n : ℕ) : ℕ → IoServicePool → Type 0 where
  created : Reach n 0 (new_pool n)
  starts : {k : ℕ} {p q : IoServicePool} → Reach n k p → start p ≡ done q → Reach n k q
  stops : {k : ℕ} {p : IoServicePool} → Reach n k p → Reach n k (stop p)
  joins : {k : ℕ} {p q : IoServicePool} → Reach n k p → join p ≡ some q → Reach n k q
  gets :
      {k i : ℕ} {p q : IoServicePool}
      → Reach n k p
      → get_io_service p ≡ some (i, q)
      → Reach n (suc k) q

done-injective : (p q : IoServicePool) → done p ≡ done q → p ≡ q
done-injective p q r = cc

-- Threads run io_services that exist.
abbrev AllBelow : ℕ → List ℕ → Type 0
AllBelow n [] = Unit {0}
AllBelow n (i ∷ is) = (i < n) × AllBelow n is

abbrev HasStopped : IoServicePool → Type 0
HasStopped p = all_return p.threads p.io_services ≡ true

abbrev ByStep : Step → IoServicePool → Type 0
ByStep at_begin p = p.threads ≡ []
ByStep at_start p = Unit {0}
ByStep at_stop p = HasStopped p
ByStep at_finish p = HasStopped p

record Alive (n k : ℕ) (p : IoServicePool) : Type 0 where
  size : length p.io_services ≡ n
  below : AllBelow n p.threads
  by_step : ByStep p.step p
  turn : 1 ≤ n → p.next_io_service ≡ k % n

length-working : (n : ℕ) → length (working n) ≡ n
length-working zero = refl
length-working (suc n) = omega (arith, length-working n)

spawn-AllBelow : (i n : ℕ) (ss : List IoService) → i + length ss ≤ n → AllBelow n (spawn i ss)
spawn-AllBelow i n [] h = tt
spawn-AllBelow i n (s ∷ ss) h = (omega arith, spawn-AllBelow (i + 1) n ss (omega arith))

length-stopped : (ss : List IoService) → length (map stop_service ss) ≡ length ss
length-stopped [] = refl
length-stopped (s ∷ ss) = omega (arith, length-stopped ss)

returns_stopped :
    (i : ℕ) (ss : List IoService) → i < length ss → returns i (map stop_service ss) ≡ true
returns_stopped i [] h = absurd (omega arith)
returns_stopped zero (s ∷ ss) h = refl
returns_stopped (suc i) (s ∷ ss) h = returns_stopped i ss (omega arith)

all_return_stopped :
    (is : List ℕ) (ss : List IoService)
    → AllBelow (length ss) is
    → all_return is (map stop_service ss) ≡ true
all_return_stopped [] ss h = refl
all_return_stopped (i ∷ is) ss (h, hs) =
    ground (arith, returns_stopped i ss h, all_return_stopped is ss hs)

-- The next turn, one after k % n.
next_turn : (k n i : ℕ) → 1 ≤ n → i ≡ k % n → (if i + 1 == n then 0 else i + 1) ≡ suc k % n
next_turn k n i h q =
    if_elim (λ x. x ≡ suc k % n) (i + 1 == n) _ _
      (λ e. sym (mod_self n) ∙ ap (λ x. x % n) (sym ((==_iff (i + 1) n).0 e)) ∙ wrapped)
      (λ e.
        sym (mod-eq_of_lt (ground (arith, ==_iff (i + 1) n, mod-lt k {m = n} (omega arith))))
        ∙ wrapped)
  where
    wrapped : (i + 1) % n ≡ suc k % n
    wrapped = ap (λ x. x % n) (omega arith) ∙ sym (suc-mod k n)

started_Alive :
    (n k : ℕ) (p : IoServicePool)
    → Alive n k p
    → (t : Step) → t ≡ p.step
    → (q : IoServicePool)
    → (if is_step t at_begin
        then done (record p { step = at_start; threads = p.threads ++ spawn 0 p.io_services })
        else fault assertion_failed)
      ≡ done q
    → Alive n k q
started_Alive n k p a at_begin e q r = subst (Alive n k) (done-injective _ q r) (record {
  size = a.size;
  below =
      subst (λ is. AllBelow n (is ++ spawn 0 p.io_services))
        (sym (subst (λ t. ByStep t p) (sym e) a.by_step))
        (spawn-AllBelow 0 n p.io_services (omega (arith, a.size)));
  by_step = tt;
  turn = a.turn;
})
started_Alive n k p a _ e q r = absurd (cc)

stop-Alive : (n k : ℕ) (p : IoServicePool) → Alive n k p → Alive n k (stop p)
unfolding stop
stop-Alive n k p a =
    if_elim (Alive n k) (is_step p.step at_start) _ _
      (λ _. record {
        size = length-stopped p.io_services ∙ a.size;
        below = a.below;
        by_step =
            all_return_stopped p.threads p.io_services
              (subst (λ m. AllBelow m p.threads) (sym a.size) a.below);
        turn = a.turn;
      })
      (λ _. a)

at_stop_stopped :
    (p : IoServicePool) (t : Step) → is_step t at_stop ≡ true → ByStep t p → HasStopped p
at_stop_stopped p at_begin e h = absurd (cc)
at_stop_stopped p at_start e h = absurd (cc)
at_stop_stopped p at_stop e h = h
at_stop_stopped p at_finish e h = h

-- What `join` gives once the wait for each thread ends.
abbrev joined : IoServicePool → IoServicePool
joined p = if is_step p.step at_stop then record p { step = at_finish } else p

join-eq : (n k : ℕ) (p : IoServicePool) → Alive n k p → join p ≡ some (joined p)
unfolding join
join-eq n k p a =
    if_elim
      (λ x.
        (if is_step p.step at_stop
          then (if all_return p.threads p.io_services
              then some (record p { step = at_finish })
              else none)
          else some p)
        ≡ some x)
      (is_step p.step at_stop) _ _ (λ e. rw (e, at_stop_stopped p p.step e a.by_step) refl)
      (λ e. rw e refl)

joined-Alive : (n k : ℕ) (p : IoServicePool) → Alive n k p → Alive n k (joined p)
joined-Alive n k p a =
    if_elim (Alive n k) (is_step p.step at_stop) _ _
      (λ e. record {
        size = a.size;
        below = a.below;
        by_step = at_stop_stopped p p.step e a.by_step;
        turn = a.turn;
      })
      (λ _. a)

-- What `get_io_service` gives on a pool that is not empty.
abbrev given : IoServicePool → ℕ × IoServicePool
given p = (
  p.next_io_service,
  record p {
    next_io_service =
        (if p.next_io_service + 1 == length p.io_services then 0 else p.next_io_service + 1);
  },
)

get-eq : (p : IoServicePool) → 1 ≤ length p.io_services → get_io_service p ≡ some (given p)
unfolding get_io_service
get-eq p h =
    if_elim (λ x. x ≡ some (given p)) (length p.io_services == 0) _ _
      (λ e. absurd (ground (arith, ==_iff (length p.io_services) 0))) (λ _. refl)

get_nonempty :
    (p q : IoServicePool) (i : ℕ) → get_io_service p ≡ some (i, q) → 1 ≤ length p.io_services
unfolding get_io_service
get_nonempty p q i r =
    if_elim (λ x. x ≡ some (i, q) → 1 ≤ length p.io_services) (length p.io_services == 0) _ _
      (λ e z. absurd (cc)) (λ e z. ground (arith, ==_iff (length p.io_services) 0)) r

given-Alive : (n k : ℕ) (p : IoServicePool) → 1 ≤ n → Alive n k p → Alive n (suc k) (given p).1
given-Alive n k p h a = record {
  size = a.size;
  below = a.below;
  by_step = by_given p.step a.by_step;
  turn = λ _.
      subst (λ m. (if p.next_io_service + 1 == m then 0 else p.next_io_service + 1) ≡ suc k % n)
        (sym a.size) (next_turn k n p.next_io_service h (a.turn h));
}
  where
    by_given : (t : Step) → ByStep t p → ByStep t (given p).1
    by_given at_begin b = b
    by_given at_start b = b
    by_given at_stop b = b
    by_given at_finish b = b

Reach-Alive : {n k : ℕ} {p : IoServicePool} → Reach n k p → Alive n k p
unfolding new_pool start
Reach-Alive {n} created = record {
  size = length-working n;
  below = tt;
  by_step = refl;
  turn = λ h. sym (mod-eq_of_lt h);
}
Reach-Alive {n} {k} (starts {p = p} {q = q} r e) =
    started_Alive n k p (Reach-Alive r) p.step refl q e
Reach-Alive {n} {k} (stops {p = p} r) = stop-Alive n k p (Reach-Alive r)
Reach-Alive {n} {k} (joins {p = p} {q = q} r e) =
    subst (Alive n k) (some-injective _ _ (sym (join-eq n k p (Reach-Alive r)) ∙ e))
      (joined-Alive n k p (Reach-Alive r))
Reach-Alive {n} (gets {k = k} {i = i} {p = p} {q = q} r e) =
    let a : Alive n k p = Reach-Alive r in
    let h : 1 ≤ length p.io_services = get_nonempty p q i e in
    subst (Alive n (suc k)) (ap (λ x. x.1) (some-injective (given p) (i, q) (sym (get-eq p h) ∙ e)))
      (given-Alive n k p (omega (arith, a.size)) a)

-- In every state of a pool of n io_services, n positive, that its methods lead to in any order:
-- after k calls of `get_io_service` the next one gives the io_service with the index k % n.
pub get_io_service-turn :
    {n k : ℕ} {p : IoServicePool}
    → Reach n k p
    → 1 ≤ n
    → (q : IoServicePool) × (get_io_service p ≡ some (k % n, q))
get_io_service-turn {n} {k} {p} r h =
    let a : Alive n k p = Reach-Alive r in
    ((given p).1, get-eq p (omega (arith, a.size)) ∙ ap (λ i. some (i, (given p).1)) (a.turn h))

-- In every state of a pool that its methods lead to in any order, `join` ends: each thread that it
-- waits for runs an io_service that was stopped.
pub join-ends : {n k : ℕ} {p : IoServicePool} → Reach n k p → join p ≢ none
join-ends {n} {k} {p} r e = absurd (cc (join-eq n k p (Reach-Alive r)))
