-- ===== src/Query/Limiter/Pass.antt =====
-- Which samples a limiter lets through.
use fast_stdb.Common.{
  ℕ, zero, suc, ◌-◌, ◌^◌, ◌<◌, ◌≤◌, ◌≡◌, refl, sym, ap, ◌∙◌, arith, true, false, Option, none, some,
  List, ◌==◌, [], ◌∷◌, if◌then◌else◌, take, Bool-cases, inl, inr,
}
use native.Mathlib.Decide.{dec_lt}
use fast_stdb.Query.Limiter.{
  Limiter, Put, new_limiter, pass, put, run, parse_limit_offset, direct, limited, attach_limiter,
  put_first, behind,
}

-- The number that a statement of a query gives, zero where it is missing.
unfoldable pub number : Option ℕ → ℕ
number none = 0
number (some n) = n

-- The offset where it is given, and else the limit.
unfoldable pub first_of : Option ℕ → Option ℕ → ℕ
unfolding number
first_of none optlimit = number optlimit
first_of (some offset) optlimit = offset

-- The samples that a query asks for; zero is no bound.
unfoldable pub passed : {Sample : Type 0} → ℕ → List Sample → List Sample
passed n ss = if n == 0 then ss else take n ss

take-nil : {A : Type 0} (n : ℕ) → take {A = A} n [] ≡ []
take-nil zero = refl
take-nil (suc n) = refl

run-cons :
    {Sample Node : Type 0} (node_put : Put Sample Node) (s : Sample) (ss : List Sample)
    (node : Node)
    → (run node_put (s ∷ ss) node).1 ≡ (
        if (node_put s node).0
        then (run node_put ss ((node_put s node).1)).1
        else (node_put s node).1)
unfolding run
run-cons node_put s ss node = elim (Bool-cases ((node_put s node).0)) [
  | inl more ↦ rw more refl
  | inr stop ↦ rw stop refl
]

module _ {Sample Node : Type 0} (next_put : Put Sample Node) where
  put-pass :
      (s : Sample) (l : Limiter Node)
      → l.offset ≤ l.counter
      → l.counter < l.limit
      → put next_put s l ≡ pass l (next_put s l.next)
  unfolding put
  put-pass s l started inside = ground arith

  put-stop :
      (s : Sample) (l : Limiter Node)
      → l.offset ≤ l.counter
      → l.limit ≤ l.counter
      → put next_put s l ≡ (false, l)
  unfolding put
  put-stop s l started done = ground arith

  run_from :
      (ss : List Sample) (l : Limiter Node)
      → l.offset ≤ l.counter
      → l.limit < 2 ^ 64
      → ((run (put next_put) ss l).1).next ≡ (run next_put (take (l.limit - l.counter) ss) l.next).1
  unfolding run pass
  run_from [] l started small =
      ap (λ (xs : List Sample). (run next_put xs l.next).1) {x = []}
        {y = take (l.limit - l.counter) []} (sym (take-nil (l.limit - l.counter)))
  run_from (s ∷ ss) l started small = elim (dec_lt l.counter l.limit) [
    | yes inside ↦
        let l' : Limiter Node = (pass l (next_put s l.next)).1 in
        let one_less : l.limit - l.counter ≡ suc (l'.limit - l'.counter) = omega arith in
        ap (λ l. l.next) (run-cons (put next_put) s ss l)
        ∙ rw (put-pass s l started inside, one_less)
            (elim (Bool-cases ((next_put s l.next).0)) [
              | inl more ↦ rw more (run_from ss l' (omega arith) small)
              | inr stop ↦ rw stop refl
            ])
    | no done ↦
        let none_left : l.limit - l.counter ≡ 0 = omega arith in
        rw (none_left, put-stop s l started (omega arith)) refl
  ]

  -- Without an offset the node behind a limiter of fewer than 2^64 samples receives exactly the
  -- first `limit` samples, and ends in the state in which these alone leave it; a node that
  -- interrupts the iteration before receives no more either.
  pub run-limit :
      (limit : ℕ) (ss : List Sample) (next : Node)
      → limit < 2 ^ 64
      → ((run (put next_put) ss (new_limiter limit 0 next)).1).next
        ≡ (run next_put (take limit ss) next).1
  unfolding new_limiter
  run-limit limit ss next small =
      run_from ss (new_limiter limit 0 next) (omega arith) small
      ∙ ap (λ (n : ℕ). (run next_put (take n ss) next).1) {x = limit - 0} {y = limit} (omega arith)

  waits :
      (ss : List Sample) (l : Limiter Node)
      → l.counter < l.offset
      → run (put next_put) ss l ≡ (true, l)
  unfolding run put
  waits [] l early = refl
  waits (s ∷ ss) l early = ground (arith, waits ss l early)

  -- With an offset above zero a limiter passes no sample on, however many there are, and never
  -- interrupts the iteration.
  pub run-offset :
      (limit offset : ℕ) (ss : List Sample) (next : Node)
      → 0 < offset
      → run (put next_put) ss (new_limiter limit offset next)
        ≡ (true, new_limiter limit offset next)
  unfolding new_limiter
  run-offset limit offset ss next pos = waits ss (new_limiter limit offset next) pos

  run-direct :
      (ss : List Sample) (node : Node)
      → behind ((run (put_first next_put) ss (direct node)).1) ≡ (run next_put ss node).1
  unfolding run put_first behind
  run-direct [] node = refl
  run-direct (s ∷ ss) node =
      ap behind (run-cons (put_first next_put) s ss (direct node))
      ∙ (elim (Bool-cases ((next_put s node).0)) [
        | inl more ↦ rw more (run-direct ss ((next_put s node).1))
        | inr stop ↦ rw stop refl
      ])
      ∙ sym (run-cons next_put s ss node)

  run-limited :
      (ss : List Sample) (l : Limiter Node)
      → behind ((run (put_first next_put) ss (limited l)).1) ≡ ((run (put next_put) ss l).1).next
  unfolding run put_first behind
  run-limited [] l = refl
  run-limited (s ∷ ss) l =
      ap behind (run-cons (put_first next_put) s ss (limited l))
      ∙ (elim (Bool-cases ((put next_put s l).0)) [
        | inl more ↦ rw more (run-limited ss ((put next_put s l).1))
        | inr stop ↦ rw stop refl
      ])
      ∙ ap (λ (m : Limiter Node). m.next) (sym (run-cons (put next_put) s ss l))

  run-attached :
      (limit : ℕ) (ss : List Sample) (next : Node)
      → limit < 2 ^ 64
      → behind ((run (put_first next_put) ss (attach_limiter (limit, 0) next)).1)
        ≡ (run next_put (if limit == 0 then ss else take limit ss) next).1
  unfolding attach_limiter
  run-attached limit ss next small = elim (Bool-cases (limit == 0)) [
    | inl nothing ↦ rw nothing (run-direct ss next)
    | inr some_limit ↦
        rw some_limit (run-limited ss (new_limiter limit 0 next) ∙ run-limit limit ss next small)
  ]

  -- In a query without functions in `apply`, whose limit and offset are below 2^64 where they are
  -- given, the terminal node receives as many samples as the offset says, the first ones, whatever
  -- the limit is; without an offset as many as the limit says; and all of them where this number is
  -- zero or neither is given.
  pub run-parsed :
      (optlimit optoffset : Option ℕ) (ss : List Sample) (next : Node)
      → number optlimit < 2 ^ 64
      → number optoffset < 2 ^ 64
      → behind (
          (run
            (put_first next_put)
            ss
            (attach_limiter (parse_limit_offset optlimit optoffset) next)).1)
        ≡ (run next_put (passed (first_of optoffset optlimit) ss) next).1
  unfolding parse_limit_offset passed first_of number
  run-parsed none none ss next small small' = run-attached 0 ss next (omega arith)
  run-parsed (some limit) none ss next small small' = run-attached limit ss next small
  run-parsed none (some offset) ss next small small' = run-attached offset ss next small'
  run-parsed (some limit) (some offset) ss next small small' = run-attached offset ss next small'
