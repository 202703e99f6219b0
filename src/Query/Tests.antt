-- ===== src/Query/Tests.antt =====
-- The theorems on the query nodes at concrete samples.
use fast_stdb.Common.{ℕ, ◌≡◌, arith, Bool, true, some, List, [], ◌∷◌, ◌++◌}
use fast_stdb.Query.Limiter.{
  new_limiter, put, run, parse_limit_offset, attach_limiter, put_first, behind,
}
use fast_stdb.Query.Limiter.Pass.{number, passed, first_of, run-limit, run-offset, run-parsed}

-- A node that keeps what it receives.
abbrev keep : ℕ → List ℕ → Bool × List ℕ
keep sample received = (true, received ++ sample ∷ [])

run-limit_example : ((run (put keep) (5 ∷ 6 ∷ 7 ∷ []) (new_limiter 2 0 [])).1).next ≡ 5 ∷ 6 ∷ []
unfolding run
run-limit_example = run-limit keep 2 (5 ∷ 6 ∷ 7 ∷ []) [] (omega arith)

run-offset_example :
    run (put keep) (5 ∷ 6 ∷ 7 ∷ []) (new_limiter 2 1 []) ≡ (true, new_limiter 2 1 [])
run-offset_example = run-offset keep 2 1 (5 ∷ 6 ∷ 7 ∷ []) [] (omega arith)

run-parsed_example :
    behind (
      (run
        (put_first keep)
        (5 ∷ 6 ∷ 7 ∷ [])
        (attach_limiter (parse_limit_offset (some 2) (some 1)) [])).1)
    ≡ 5 ∷ []
unfolding run number passed first_of
run-parsed_example =
    run-parsed keep (some 2) (some 1) (5 ∷ 6 ∷ 7 ∷ []) [] (omega arith) (omega arith)
