-- ===== src/Proxy/Services/Limits.antt =====
-- The budget of a turn and its end.
use soma_benchmark.Base.{ℕ, ◌+◌, ◌*◌, ◌≤◌, max, String, ◌≡◌, ◌≢◌, Bool, Option, some, List}
use soma_benchmark.Base.Lists.{length}
use soma_benchmark.Base.Json.{Value}
use soma_benchmark.Proxy.Services.{Offer, Budget, Round, Body, Result, Ending, out_of_fuel}

module _ (offers : String → Option Offer) (most per_round rounds : ℕ) where
  -- No offer allows more than this.
  abbrev pub Bounded : Type 0
  Bounded =
      (s : String) (o : Offer)
      → offers s ≡ some o
      → (o.max_calls ≤ most) × (o.max_calls_per_round ≤ per_round) × (o.max_rounds ≤ rounds)

  module _ (size : Body → ℕ) where
    -- Of a round: the calls that run are counted, and stay within the limits.
    abbrev Fits : Budget → Round → Type 0
    Fits b r =
        (r.budget.rounds ≡ b.rounds)
        × (r.budget.calls ≡ b.calls + length r.runnable)
        × (r.budget.calls ≤ max b.calls most)
        × (length r.runnable ≤ per_round)

  module _ (size : Body → ℕ) (late : ℕ → ℕ → Bool) (run : ℕ → Body → Result) where
    -- The calls that are executed are within the limit; where the round gives results, they are counted.
    abbrev Counts : Budget → List Body → Option (Budget × List Result) → Type 0
    Counts b ran o =
        (b.calls + length ran ≤ max b.calls most)
        × ((b' : Budget) (results : List Result)
            → o ≡ some (b', results)
            → (b'.rounds ≡ b.rounds + 1) × (b'.calls ≡ b.calls + length ran))

    module _ (reply : List (List Result) → Option Value) (limit : ℕ) (expired : ℕ → Bool) where
      -- The ends of a turn: not for want of fuel, and within the limits of calls and of rounds.
      abbrev pub Ends : Ending × Budget × List Body → Type 0
      Ends t =
          (t.0 ≢ out_of_fuel) × (length t.2 ≤ most) × (t.1.calls ≤ most) × (t.1.rounds ≤ 2 * limit)
